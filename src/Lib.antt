-- ===== src/Lib.antt =====
-- Nmerkar: the parts of the compiler that decide what a sandboxed program and the packages it uses
-- are allowed to do, the signatures, lock files and approvals that protect packages, the checks of the
-- stack, and the translator of a C subset.
--
-- A program is built under a sandbox file, which allows and denies capabilities by patterns. Files
-- and directories given at run time are further layers over it. A package is used at a site that
-- grants it capabilities; the grant is computed from the site, the declaration of the package and
-- the program's own capabilities, and becomes a sandbox of its own. The root hash of a package is
-- pinned in a lock file and may be signed with Ed25519; a root that is not pinned yet passes a gate
-- where a human approves it. A program in the instructions of the compiler is checked before code is
-- made of it: each label must find as many cells on the stack as it has parameters, each body must end,
-- and each exit of a loop must stand in one. A second program translates a C subset into Nmerkar text.
--
-- comp/src/sandbox.rs is modelled by Sandbox:
--   Sandbox.Pattern    CAP_NAMES, op_capability, pattern_matches
--   Sandbox.Resolve    Rules, resolve_cap
--   Sandbox.Caps       Caps (cap, cap_i64, module_allowed, apply_rules)
--   Sandbox.Within     path_within; its search for an existing parent runs on fuel, one more than the
--                      length of the path
--   Sandbox.Effective  SandboxFile, effective, caps_for_grants; the `user_err!` exits are values
--   Sandbox.Ufs        parse_rules, parse_ufs
--   Sandbox.Bake       c_bake, c_escape, describe
--   Sandbox.Files      the file system and the environment, which are parameters: join, canonicalize,
--                      starts_with, exists and parent of paths, the current and the temporary directory
-- A map from capability names is an association list, an early exit with a diagnostic is a value.
--
-- comp/src/pkg.rs is modelled by Pkg:
--   Pkg.Grant          UseSpec (comp/src/ast.rs), policy_allowed_caps, patterns_cover, is_cap_token,
--                      compute_grant; Pkg.Grant.Attenuation joins it to Sandbox.Effective
--   Pkg.Lock           Pin, parse_kv_fields, parse_lock, for_source, for_source_ref, render
--   Pkg.Source         is_schemed, split_ref, normalize (behind the decoding of UTF-8), sanitize_alias
--   Pkg.Date           iso_date, up to the printing of the three numbers
--   Pkg.Origin         Source, parse_source
--   Pkg.Approval       parse_approvals, approved
--   Pkg.Meta           PkgMeta, parse_nkpkg
--   Pkg.Version        semver_key
--   Pkg.Envelope       verify_signature, on the contents of the two files
--   Pkg.Diff           tree_diff
--   Pkg.Install        approval_gate_key and install_one: what they read is World, what `fetch` and
--                      `hash_package` give is Fetched, and what they write is in Installed
-- Fetching packages, the package store and the console are not modelled: they are input and output.
--
-- comp/src/ed25519.rs is modelled by Ed25519, every function of it:
--   Ed25519.Field      Fe, five limbs of 51 bits modulo 2^255 - 19
--   Ed25519.Group      Ge, extended coordinates, their sums, multiples and encoding
--   Ed25519.Scalar     words and bytes modulo the order of the base point (L), sc_reduce, sc_muladd
--   Ed25519.Sha512     Sha512 (new, update, finalize, compress); `buf` is its first `buf_len` bytes;
--                      the loop over whole blocks runs on fuel, the number of bytes
--   Ed25519.Signature  expand_seed, public_from_seed, sign, verify, from_hex32, to_hex
-- A `u64` or `u128` is a number with the remainder by 2^64 or 2^128 taken where the source may wrap;
-- the arrays are lists, lowest word first where the source has it so.
--
-- trans/src is modelled by Trans, the translator of a C subset to Nmerkar text: lex, parse, emit.
--   Trans.Token        Kind, Token, MULTI_PUNCT and Error; Fault adds to a positioned error a panic of
--                      Rust and the end of the model's fuel
--   Trans.Lexer        lex; a round of its loop is `step`, and there are as many rounds as bytes, and one
--   Trans.Syntax       ast.rs; the numbers of a node are its line and column
--   Trans.Run          methods on `&mut self` with a `Result`, as functions of the state
--   Trans.Parser       Parser: `toks` from `pos` on as a current token and the rest, and loop_depth;
--                      Trans.Parser.Levels, Trans.Parser.Exprs, Trans.Parser.Stmts and
--                      Trans.Parser.Programs hold its methods. A loop gets as much
--                      fuel as tokens are left, and one; a method that calls itself gets the same
--   Trans.Emit         Emitter, FnCtx, Buf; Trans.Emit.Exprs, Trans.Emit.Stmts and Trans.Emit.Program
--                      hold its methods, by recursion on the tree
--   Trans.Main         run of main.rs
-- A source text is the list of its bytes. The positions are unbounded numbers. Reading the input files
-- and printing the result or the diagnostic are not modelled.
--
-- comp/src/parse.rs is modelled by Checker as to its checks of calls, bodies and loops, with Ins and
-- Parsed of comp/src/ast.rs. A `HashMap` is an association list; a depth (i64) is an integer without
-- bounds, as no program has 2^62 cells or instructions.
--   Checker.Program    Ins, Param, Import, WeaveMeta, and the fields of Parsed that the check reads
--   Checker.Effects    helper_effect, callback_slots, callback_mnem
--   Checker.Depths     EDepth, join_depth
--   Checker.Walk       process_slots: the labels that an instruction hands control to
--   Checker.Moves      what the arms of arity_walk do to depth, shadow and list_marks
--   Checker.Arity      join_into and the checks (visit), arity_walk
--   Checker.Entries    label_entry_depths, whose loop runs for max_rounds, and check_label_arity
--   Checker.Exits      check_label_bodies_end_with_ret, check_loop_exits_in_loop; the order of labels at
--                      one instruction is that of the list
--
-- Base holds what the parts share: tests, lists, texts as lists of character codes, lines and words,
-- association lists, machine words, byte strings, and results with errors.
--
-- The lexer, the parser proper and the code generators of comp/src, its runtime texts in C and JavaScript,
-- the compute kernels and the driver are not modelled, nor the report that comp/src/sandbox.rs prints
-- for a reader.
mod Base
pub mod Sandbox
pub mod Trans
pub mod Pkg
pub mod Checker
pub mod Ed25519
