-- ===== src/Lib.antt =====
-- schema-compare compares two PostgreSQL schemas, each a set of CREATE TABLE statements that are
-- parsed from files or read from a database, and reports the differences table by table. This
-- library models its lexer and parser, its comparison, the migration script that it
-- generates, the data that passes through them and the utilities they stand on.
--
-- Which file is about which part:
--   Text          C strings as lists of byte codes, a NULL `char *` as `none`; the functions of
--                 <string.h> and <ctype.h> that the code calls, in the C locale
--   Token         include/lexer.h: the tokens; Keywords has the table of keywords and its search
--   Lexer         src/parser/lexer.c: lexer_next_token and its parts. Blanks and Skips are
--                 about white space and comments, Scans and Next about what a call passes and
--                 reports, Progress about what is left
--   Parser        src/parser/parser.c: the state, its errors and its steps, and how a parsing
--                 function ends
--     Parts, Constraints, TableConstraints   parse_constraint.c
--     Tables, CreateTable      parse_column.c, parse_partition.c and parse_table.c
--     Types, BaseTypes, CreateType   parse_type.c
--     Schema                   parse_schema.c
--     Progress, Ends, Total, SequenceTotal, ConstraintsTotal, TablesTotal, DataTypesTotal,
--     ColumnsTotal, Stuck, Statements   where these loops come to an end, and where one does not
--   StringUtils   src/utils/string_utils.c: trimming, case, splitting; Builder has the string builder
--   HashTable     src/utils/hash_table.c: separate chaining over the hash of 64 bits. Laws and
--                 Refinement are about a table as a map, Populate about the loops that fill one
--   Ddl           include/pg_create_table.h, include/pg_create_type.h and include/pg_schema.h: the
--                 trees of the statements CREATE TABLE and CREATE TYPE
--   Diff          include/diff.h and src/compare/diff.c: the records of a report, their severities
--   Compare       src/compare/:
--     Options, Types, Expressions, Equality   compare.c: options, which tables take part, and when
--                 two names, types and expressions are one; Types.Normal has the names of types
--     Column, Columns          compare_column.c: compare_column_details and compare_columns
--     Constraint, Constraints  compare_constraint.c: constraints_equivalent, the ConstraintInfo
--                 arrays and compare_constraints
--     Tables, Tables.All       compare_table.c and compare_schema.c: compare_tables,
--                 compare_all_tables and compare_schemas
--   Memory        src/memory/memory.c: the account of a memory context (Account) and the deep copies
--                 of the trees (Clone, Copies, Statements, Types)
--   Sql           src/output/: the migration script
--     Quote                    sql_generator_util.c: quoting of identifiers and literals; Plain
--                 says which identifiers are written as they are
--     Calls                    the calls of the string builder, and what they write
--     Options                  include/sql_generator.h
--     Constraints, Columns, Tables   sql_generator_constraint.c, sql_generator_column.c and
--                 sql_generator_table.c, a statement or a clause each
--     Migration                the passes of sql_generator_table.c, and sql_generator.c
--   Examples      the theorems at concrete inputs, and tests
--
-- How the parts interact: compare_schemas calls compare_all_tables, which returns at once if an array
-- of tables is NULL, and else finds each table's partner
-- through hash tables of names and calls compare_tables; that compares types and tablespaces, and
-- calls compare_columns and compare_constraints, which extend one TableDiff. In the model each of
-- them takes the TableDiff and returns it changed, and a list tail such as `last_added` is the flag
-- that tells whether the list has been linked to. generate_migration_sql reads the finished
-- SchemaDiff and the statements that it points to.
--
-- The parser asks lexer_next_token for one token after another. A parsing function takes the Parser
-- and returns its result, or none for NULL, with the Parser changed; a chain of such calls that
-- returns NULL where one of them does is a do block.
--
-- How the code corresponds: a struct is a record, a tagged union a data type with a constructor for
-- each tag, a linked list or an array with its count a List, and a pointer that may be NULL an
-- Option. A C function has the name of its definition; a loop is a recursion over the list that it
-- walks, and the body of a loop or a branch that is long has a definition of its own. Most
-- recursions are structural. The others have fuel: 64 turns for the loop that doubles the capacity
-- of a string builder, which is enough for every size up to 2 ^ 63, since the capacity starts
-- above 0; a turn for each keyword, and one more, for the search of a keyword; and for the loops
-- of the parser one turn more than the characters and the token that are left, which `remaining`
-- counts. A reply `runs_on` of a parsing function says that the fuel is used up. A pointer into
-- the source of the lexer is the text from there on. Counters of type `int` are natural numbers:
-- the inputs are taken to have fewer elements than an `int` counts. The hash is computed modulo 2
-- ^ 64, as `unsigned long` has 64 bits, from signed `char`s, and so are the sizes of the string
-- builder. Allocations succeed, except that the string builder is given which calls of `realloc`
-- do, and the functions of a memory context what the allocator answers.
--
-- A function that generates SQL never looks at its string builder, so it is modelled as the list of
-- calls of the builder that it makes, in their order; `make_all` makes them. What vsnprintf makes of
-- a format is an argument.
--
-- What is not modelled: the freeing of trees and the allocators of single structs, which do not
-- change results when allocations succeed; files, the log, the command line and the database, which
-- are input and output around the comparison; the printed report, which stands after it.
pub mod Base
pub mod Text
pub mod HashTable
pub mod Ddl
pub mod Diff
pub mod StringUtils
pub mod Token
pub mod Lexer
pub mod Parser
pub mod Memory
pub mod Sql
pub mod Compare
pub mod Examples
