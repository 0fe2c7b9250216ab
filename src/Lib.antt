-- ===== src/Lib.antt =====
-- The Sprout language: a register machine with NaN-boxed words, and the front end of its compiler.
--
-- A program is a file of bytecode. `src/main.cpp` hands its path to `init` (`src/vm/vm.cpp`), which
-- reads the file, its header and its function table (`src/vm/bytecode.cpp`), and then to `run`,
-- which fetches (`src/vm/vm.h`), decodes (`src/vm/decode.h`) and executes (`src/vm/execution.cpp`)
-- one instruction after another. Instructions work on 256 registers of 64-bit words
-- (`src/shared/values.h`), an operand stack (`src/vm/decode.cpp`) and arrays on a garbage collected
-- heap (`src/vm/Heap.cpp`). The compiler (`src/compiler/compiler.cpp`) joins its arguments into a
-- text, splits it into tokens (`src/compiler/lexer.cpp`), parses these by recursive descent
-- (`src/compiler/parser.cpp`) into nodes that it places in an arena (`src/compiler/memManager.cpp`),
-- prints the tree and frees the arena. It makes no bytecode yet.
--
-- The modules:
--   Prelude    shared names, lists, integers, and `&` and `|` of words as arithmetic
--   Result     outcomes: a value, an exception, undefined behaviour, too little fuel
--   Ram        memory as bytes and live blocks; malloc and free, memset and memcpy
--   Values     src/shared/values.h: the boxes (Values, with lemmas in Tags) and their laws (Boxing)
--   Vm         the state of src/vm/vm.h, the structs of bytecode_format.h and Heap.h, and fetch
--   Decode     src/vm/decode.h and decode.cpp
--   Bytecode   src/vm/bytecode.cpp: Header and Table hold the theorems
--   Opcodes    src/shared/opcodes.h
--   Heap       src/vm/Heap.cpp: the allocator (theorems in Align and Alloc), the collector
--              (Collect), allocation with collection and arrays (Arrays, theorems in
--              Elements); Objects and Walk follow the objects of a half-space, Outside
--              compares an array with its object
--   Execution  src/vm/execution.h: Ints, Kinds, Compare, Calls and Moves hold the theorems
--   Run        the switch of src/vm/execution.cpp, init and run of src/vm/vm.cpp, src/main.cpp; Manual
--              is README.md's instruction set apart from the code, Refines and Whole hold the
--              theorems against it, Program lemmas
--   MemManager src/compiler/memManager.h and memManager.cpp
--   Lexer      src/compiler/lexer.h and lexer.cpp: Progress, RoundTrip, Sound and Directives hold
--              the theorems; Lexemes the spelling of tokens; Words, Symbols and Reads lemmas
--   Ast        the nodes of src/compiler/parser.h, and printAST; Outline is what its lines show
--   Parser     the expressions of src/compiler/parser.cpp: Tokens models parser.h and std::stoll,
--              Grammar is the grammar apart from the code and Plain the part of it that can be read
--              in one way only; Reads, Operators and Expressions show that what is read is of the
--              grammar, Levels, Arguments and Complete that what is of it is read, Placement what
--              becomes of the arena
--   Statements the statements, blocks and programs of src/compiler/parser.cpp: Grammar, then Steps,
--              Reads and Programs on what is read, Gaps on what the code refuses or loses
--   Compiler   src/compiler/compiler.cpp, with its theorem in Whole; Arguments and Freed are on
--              the text of the arguments and on the memory given back
--   Examples   each theorem with hypotheses at a concrete input
--
-- Correspondence. A function of the source has its name here in antt's spelling (`heapAlloc` is
-- `heap_alloc`), takes the state it reads and returns the state it leaves. A struct is a record, an
-- enum a data type or numbered constants. A word is a natural number below 2 ^ 64 and wraps are
-- written out; an int64_t is an integer. A std::runtime_error is `thrown`, undefined behaviour that
-- the code can reach (reads past the bytecode, the stack, the function table or live memory, signed
-- overflow, division by zero, a token type never set) is `fault`. Registers are a function, since a
-- uint8_t cannot miss one of the 256. A `Source` of the lexer is the text from its position on, and
-- a loop that appends while a test holds is a pair of functions, `word` and `after`. A `TokenSource`
-- of the parser is the list of the tokens from its position on. A node is a value and stands for the
-- pointer to it: nothing changes a node, and nothing reads its address. The write of a node into its
-- room is not modelled; the sizes of nodes are far below a chunk.
--
-- Parameters. Arithmetic and order of doubles (`Doubles`) act on bit patterns and are arguments.
-- What std::ifstream finds at a path is an argument. malloc answers from `supply`, a function of the
-- number of calls so far. std::vector and std::cout are lists. The sizes of the structs of nodes
-- (`NodeSizes`) are arguments. std::stoll skips blanks, takes a sign and reads the digits at the
-- front; without one, or out of range, it throws. The character classes of <cctype> are those of the
-- "C" locale; of a byte from 128 on, for which the calls are undefined where char is signed, they
-- are false. The double product in the test for a collection is an exact fraction.
--
-- Fuel. `run` takes the number of instructions. The two loops of the collector over a chunk take as
-- many rounds as bytes are used, which is enough where objects lie back to back; the loop over the elements of an array takes 2 ^ 32, more
-- than a uint32_t length. The scanner's loops take more rounds than the text has bytes, which is
-- enough. The parser of expressions goes as deep as there are tokens and one more, that of
-- statements four times as deep, since a token is passed every four calls; both are enough.
--
-- Not modelled: the usage line of `src/main.cpp` on std::cerr, the unused `freeChunk` and the
-- assembler `tools/assembler/assembler.py`. Where C++ leaves the order of the two reads in
-- `fetch64` open, the model takes left before right, as the format needs it.
pub mod Prelude
pub mod Values
pub mod Result
pub mod Ram
pub mod Vm
pub mod Decode
pub mod Bytecode
pub mod Heap
pub mod Opcodes
pub mod Execution
pub mod Run
pub mod MemManager
pub mod Lexer
pub mod Ast
pub mod Parser
pub mod Statements
pub mod Compiler
pub mod Examples
