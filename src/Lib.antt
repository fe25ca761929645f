-- ===== src/Lib.antt =====
-- fwdelta compares two revisions of an nftables ruleset: it turns each chain into the set of packets
-- it accepts, as a binary decision diagram, and reports how the two sets differ. This library models
-- the parts that compute the answer and proves what they compute.
--
-- The parts, in the order in which data flows through them:
--   crates/nft/src/lex.rs       Nft/Scan.antt, Nft/Lex.antt
--                                                 tokens of a ruleset's text; its errors, from
--                                                 crates/nft/src/error.rs, are in Nft/Error.antt
--   crates/nft/src/parse.rs     Nft/Cursor.antt, Nft/Values.antt, Nft/Skip.antt, Nft/Statement.antt,
--                               Nft/Rule.antt, Nft/Chain.antt, Nft/Parse.antt
--                                                 the parser, from its primitives up to a file
--   crates/ir/src/field.rs      Ir/Field.antt     the seven match dimensions and their widths
--   crates/ir/src/intervals.rs  Ir/Intervals.antt sets of values as sorted disjoint ranges, with
--                                                 one module for each family of laws below it;
--                                                 Ir/Prefixes.antt has the blocks of a set
--   crates/ir/src/interface.rs  Ir/Interface.antt interface names, their symbol table, and the
--                                                 resolution of an interface match to symbols
--   crates/ir/src/rule.rs, crates/ir/src/lib.rs
--                               Ir/Rule.antt      matches, rules, chains, rulesets; the invariant
--                                                 of matches is in Ir/Rule/WellFormed.antt
--   crates/engine/src/header.rs Engine/Header.antt
--                                                 variable orders, and the diagrams of ranges, sets
--                                                 and matches
--   crates/engine/src/packet.rs Engine/Packet.antt
--                                                 a packet read off a valuation
--   crates/engine/src/accept.rs Engine/Accept.antt, Engine/Explain.antt
--                                                 the two passes of `analyse`, attribution, the
--                                                 self-check, the explanation of a shadowed rule
--   crates/engine/src/diff.rs   Engine/Diff.antt, Engine/Pairing.antt
--                                                 the two deltas, the pairing of rules, the
--                                                 structural changes, attribution under a cap
--   crates/engine/src/region.rs Engine/Region.antt
--                                                 rectangles of packets and their merging
--   crates/policy/src/parse.rs  Policy/Assertion.antt, Policy/Scalars.antt, Policy/Load.antt
--                                                 assertions, zones, and the addresses of an endpoint;
--                                                 ports and protocols; the loader of a document
--   crates/policy/src/eval.rs   Policy/Eval.antt  the check of an assertion against a chain; the packets
--                                                 that an assertion is about are in
--                                                 Policy/Eval/Meaning.antt
--   crates/cli/src/main.rs      Pipeline.antt     parsers and analysis put together: from two texts to
--                                                 the delta between two of their chains, and to the
--                                                 check of a policy
--
-- Functions and types keep the names of the source; a loop is a function by structural recursion
-- named for what it does. A `u8`, `u16`, `u32` or `u64` is a number, and each place where the source
-- could wrap or saturates says so. A `Vec` is a list, a `BTreeSet` of names a strictly increasing
-- list (Prelude/NameSet.antt), a `String` the list of its bytes (Prelude/Text.antt). A panic is
-- `none`, and in the parsers a result of their own; debug assertions, which a release build leaves
-- out, are not modelled. Loops run over a list or a bounded count, or on fuel: the tokeniser's main
-- loop has one round for each byte and one more, its loop over octets one for each byte left and one
-- more, and each round takes a byte; the parser's loops have one round for each token left and one
-- more, and each round but the last takes a token; the loop that writes a range as prefixes has one
-- for each value of the range and one more. So the fuel is never used up. The parser's state is the
-- list of the tokens left, whose last one is never taken; the hints of its errors are not modelled.
--
-- The decision-diagram library is not part of the repository. Engine/Bdd.antt states what the engine
-- uses of it: the operations, and the Boolean function that each result represents, with `is_true`,
-- `is_false` and `==` deciding properties of that function. Every theorem of the engine holds for
-- any library that keeps those promises; Engine/Bdd/TreeLib.antt shows that one exists. The standard
-- library's hash of a rule's content is a parameter too (`ContentKey`). So is the TOML library, by
-- what the loader distinguishes of its values (Policy/Toml.antt), with one promise: the span of an
-- error starts between two characters, which the slice of the source up to it relies on.
--
-- Engine/Accept/Semantics.antt has the semantics against which the analysis is judged, first-match
-- evaluation over packets as docs/SEMANTICS.md describes it, without diagrams or sets.
-- Policy/Eval/Meaning.antt has what an assertion is about, key by key, without the match that the
-- check builds of it.
--
-- Not modelled: the enumeration of packets; text, HTML and JSON output; the command line; the
-- harness that drives a kernel.
pub mod Prelude
pub mod Ir
pub mod Nft
pub mod Engine
pub mod Policy
pub mod Pipeline
mod Tests
