-- ===== src/Lib.antt =====
-- Quill, a template engine in Go: its value system and the parts around it, modelled and verified.
--
-- Parts, and the files that model them:
--   Prelude, Strconv       shared types and lemmas; Go strings as lists of bytes, Go maps as association
--                          lists, signed integers, strconv's decimal print and parse
--   Errors                 pkg/errors/errors.go: the kinds; an error is its kind, without text or position
--   Runtime/Keys           pkg/runtime/array.go: which subscripts are integer keys
--   Runtime/Array          pkg/runtime/array.go: ordered arrays
--   Runtime/Heap           pkg/runtime/array.go: ShareValue and Own, the copy-on-write pair
--   Runtime/Value, Host    pkg/runtime/value.go: the tagged union, and the interfaces of host objects
--   Runtime/Compare, Text  pkg/runtime/compare.go, stringify.go: Equal, Same, Order, In, ToText
--   Runtime/Truthy, Iterate, Attribute, Loop, Context, Scope
--                          the files of pkg/runtime with those names (loopinfo.go for Loop)
--   Interp/Assign          internal/interp/exec.go (assignMember, ownPath), eval.go (evalName, keyOf)
--   Interp/Arith, Interp/Operators
--                          internal/interp/operators.go: checked int64 arithmetic, operators on values
--   Sandbox                pkg/sandbox/sandbox.go: the type graph and the policy
--   Check                  pkg/check/type.go and narrow.go: static types; Check/Registry for registry.go,
--                          Check/Consistency for consistency.go
--   Ast                    pkg/ast: the nodes of a parsed template
--   Check/Guards           pkg/check: annotations and guards read from nodes, over the checker's scopes
--   Coverage               internal/covercore: hits and seeds of coverage regions
--   Loader                 pkg/loader/loader.go, composable.go: loaders over an interface of loaders
--   Cache, Source          pkg/cache/cache.go, pkg/source/source.go
--   Lex                    internal/lex: Lex/Token, Cursor, Strings, Numbers, Heads, Code, Verbatim, Doors,
--                          Trims and Scan model the lexer; Lex/Scan's lex is Lex
--   Ext/Escape             pkg/ext/escape.go: the escaping strategies
--   Utf8                   what the engine uses of Go's unicode/utf8 and of fmt's hexadecimal verbs
--   Tests                  runs at concrete inputs
--
-- How they interact: a Value that is an array holds an address, and the arrays stand in a heap, the list
-- of all arrays made so far. Operations that write take a heap and return one. A scope binds names to
-- values and marks an array as shared when it is bound or read from an outer frame; Own copies a marked
-- array before a write, which Attribute then does in place. Interp/Assign does this along a whole path, from
-- the name at its root down.
--
-- The operators take evaluated operands and use the comparison and the text of the runtime. The static
-- types ask the registry about host types, where an Object flows into another; the policy asks its type
-- graph. A loader gives a Source, which the lexer turns into tokens.
--
-- Parameters: the machine's floats and everything a host object does are a record, Runtime/Host, with
-- Interp/Operators' Floats for float arithmetic; a host's loader is a value of Loader; what a
-- theorem asks of it stands among the theorem's hypotheses.
--
-- Fuel: Equal recurs on fuel, one unit for each level of nesting. A heap whose arrays rank above their
-- elements has a rank for each value, and fuel above the rank is enough. The loop of `ancestors` is
-- given a round for each declared supertype and one more: each name enters the queue once. The loop of
-- `powInt64` is given as many rounds as its exponent, which it halves. The walks over the registry's
-- supertypes are cut off at a depth that is an argument; a rank that goes down at each declaration
-- bounds the depth that is needed, and on a cycle none is enough. The loops of the lexer, over the
-- segments of a text, the tokens of a region of code and the lines of a fenced body, are given one round
-- more than there are bytes: each round moves the cursor. The escaping loops are given as many rounds as
-- there are bytes. The lexer's other loops recur on the rest of the input.
--
-- Not modelled: error texts (the lexer's ERROR tokens carry their fault), error positions outside
-- the lexer, capacities and other matters of allocation, goroutines, the parser, the interpreter's
-- evaluation of expressions (a target of an assignment holds its evaluated subscripts), the type
-- checker's pass over a template, the sandbox's enforcement during a render, coverage reports,
-- loaders over files, the compiler to Go, the filters but the escapes, the command line.
pub mod Prelude
pub mod Strconv
pub mod Errors
pub mod Runtime
pub mod Sandbox
pub mod Check
pub mod Loader
pub mod Ast
pub mod Coverage
pub mod Utf8
pub mod Ext
pub mod Lex
pub mod Cache
pub mod Source
pub mod Interp
pub mod Tests
