-- ===== src/Lib.antt =====
-- Verification of the C-- compiler (Assig4): its hash table, symbol table, type table and code
-- generation, and of its earlier stages, with their scanner (Assig1).
--
-- The compiler reads a C-like program in one pass. The lexer (Assig4/lexer3.l) makes a symbol of
-- every identifier, the actions of the grammar (Assig4/parser.y) fill in its fields, put it into the
-- symbol table (Assig4/symboltable.c), look it up, and print MIPS assembler. User-defined types are
-- in a type table (Assig4/typetable.c). Both tables are hash tables of void pointers
-- (Assig4/hashtable.c). Assig4/codegen.c keeps the label stack, the temporary registers and the
-- string constants, and prints what a function begins and ends with. Assig1 is an earlier scanner on
-- its own, which counts identifiers; assignment1 is that scanner on a hash table. Assig2 is a parser
-- that knows the names of types. Assig3 is the compiler before code generation. Assig4/Assig4-final
-- holds the files of Assig4 once more.
--
-- Files:
--   Base         numbers with Boolean tests, lists, strings (Base/CString), decimal notation as
--                sprintf("%d") prints it and Assig4/common.c's myitoa (Base/Decimal), runs that may
--                fault (Base/Run), integers (Base/Int)
--   HashTable    Assig4/hashtable.c: ll_search, ll_insert, h_insert, h_get, h_remove, ht_to_list, ...
--                under their own names; a bucket is a list. Chain and Slot are about one chain and one
--                bucket, Insert, Remove and Listing about the operations, Flatten reads a table as one
--                association list
--   SymbolTable  Assig4/symboltable.c over a heap of symbols: Key (gen_key), Sweep, Delete and
--                DeleteScope (delete_scope), Scope (insert_symbol and the lookups), Order,
--                Change and Trace (the order of the parser's calls)
--   TypeTable    Assig4/typetable.c over a heap of type objects
--   CodeGen      Assig4/codegen.c: Stack (s_push, s_get, s_pop), Registers (get_free_temp_reg,
--                mark_temp_reg_free), Labels (push_string_label, gen_string_labels), Line (emitted
--                lines and their text), Frame (gen_func_prolog, gen_func_epilog), Frame/Machine
--                (the emitted instructions on registers and memory)
--   Parser       Assig4/parser.y: Control (the actions of if_stmt, while_stmt and block_stmt over a parse
--                tree), Control/Layout (against a translation without a stack), Control/Targets (the
--                labels), Control/Exec and Control/Compiles (what the printed code does), Types (the
--                type checks of binary operators and assignments)
--   Store        Assig3/hashtable.c over a store of linked cells, with the loops along `next` on fuel. Chain,
--                Rep and Cells say when a store holds a table of HashTable; Init, Link and Insert, Walk and
--                Remove, and Listing are about the operations on both
--   SizedTable   assignment1/hashtable.c: the same table in globals, with the counter ht_size and another
--                ht_to_list (Listing); Invariant is about the globals that its calls reach
--   NameTable    Assig2/table.c on the table of SizedTable, as Assig2/hashtable.c has the text of
--                assignment1/hashtable.c; Names is about the types that it knows
--   Frequency    assignment1/symboltable.c on that table: insert_id and the symbols behind the table's
--                pointers (Count, Grow), print_symtab (Print), the comments
--   IdTable      Assig1/symboltable.c, the scanner's table of identifiers: find_id, insert_id
--                (insert_ids is a run of calls), print_symtab (print_ids), insert_comment; Count is
--                about the frequencies
--   OldSymbols   Assig3/symboltable.c, before there were parameters and places; Embed is about its delete_scope
--                and that of SymbolTable
--   Scanner      Assig1/lex.yy.c, which flex made from Assig1/lexer.lex: its tables (Tables, and Checks for
--                facts checked entry by entry), the matching of a token in a text that is there as a whole
--                (Longest, Loop, Match), the actions and yylex (Actions; Ends, TooSmall, Finish),
--                the buffer (Buffer) with its refills (Fread, Fits, Fill), the scanner and input() on it
--                (OnBuffer; Refill, Buffered, Same, Input), and the actions and yylex on a file that is
--                read through the buffer (OnFile; Comment, Whole)
-- Theorems that are run at concrete inputs, and small tests, are in the Tests modules.
--
-- Conventions. A string is the list of its bytes without the closing NUL; strcmp is equality. A
-- function that may read freed memory, fail an assert or leave an array returns a Run, whose faults
-- say which; a theorem that it Returns says that it does not fault. malloc always succeeds, and
-- where the address matters it is an argument. free empties a cell of the heap, and a read of an
-- empty cell is a fault. unsigned int has 32 bits, and the hash adds signed chars to one. A register
-- or a word of the machine has 32 bits, and addresses wrap around. An int that counts (a scope, a
-- label) is taken not to overflow; where a printed number must fit a buffer, its bound is a
-- hypothesis. The loops of the source are recursions on a list or a number, so that no fuel is
-- needed, but for the loops of Store: they follow addresses, and a round for each entry of a bucket
-- is enough for them; and yylex of Scanner, for which one round more than there are characters is
-- enough, as it is for scan_from, whose rounds are the refills of the buffer, and for yylex_here;
-- the loop of a comment has 101 rounds more, for the places of this_comment. The theorems about
-- tokens are for an input without NUL, of less than 2 ^ 31 - 1 characters where there is a buffer: a
-- count that does not fit an int is a fault there. fread and qsort are parameters wherever they are
-- called, and so is `usable`, the size of the block that malloc returns, for h_insert of SizedTable,
-- which copies a key to a block of strlen(key) bytes: it is a fault where the closing NUL has no place.
-- insert_symbol is a fault where the key does not fit the 260 bytes that gen_key has for it.
-- mark_temp_reg_free takes the characters of a name as unsigned, which differs for bytes above 127
-- only. The NUL that input() writes over the character it has read is left out, as nothing reads it.
-- ht_to_list is called with a table, as in all of the code, so that its test for NULL is left out.
--
-- In Parser/Control a line that another action prints is a text, its effect on the machine is a
-- parameter of the theorem about runs, and so is which places are zero. The blank that while_stmt
-- prints behind its labels is left out.
--
-- Not modelled: the other actions of Assig4/parser.y except for the order in which they call the
-- symbol table, where an array that is declared as a struct's field under the name of a parameter is left
-- out (it makes the parameter an array), the grammar itself (a statement is given as its parse tree), the patterns of
-- Assig4/lexer3.l, debug output, the functions of Assig1/lex.yy.c that nothing calls (the stack of
-- buffers, the scans of strings, yyunput), the parsers of Assig2 and Assig3, Assig3/typetable.c,
-- which has the text of Assig4/typetable.c, the LLVM pass in Assig5, and the vendored libghthash and
-- uthash.
pub mod Base
pub mod HashTable
pub mod SymbolTable
pub mod TypeTable
pub mod CodeGen
pub mod Parser
pub mod Frequency
pub mod IdTable
pub mod NameTable
pub mod OldSymbols
pub mod Scanner
pub mod SizedTable
pub mod Store
