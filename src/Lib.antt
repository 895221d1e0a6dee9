-- ===== src/Lib.antt =====
-- A verification library for proyecto-estructura, a small database in C++. A query is text; the
-- tokenizer and the parser turn it into tokens (src/lib/analyzer/tokenizer.cpp, parser.cpp), the
-- automaton turns the tokens into an action (automata.cpp), and the program runs the action on
-- databases and tables whose columns are files (database.hpp, table.hpp, columnInstance.hpp). What
-- is modelled here is the way from the text of a query to its action, the list of key-value pairs
-- that holds a table's columns, how the literals of a query become the values of columns, and how
-- a SELECT filters its rows.
--
-- The parts, and the files that model them:
--
-- Prelude and its children: shared names, Boolean tests, lists, bytes of strings, integers, and
-- the interface of key types with an `operator==`.
--
-- Outcome: how a call ends. `ok` is the value of a `cpp::result`, `fail` its message (the literal
-- text up to the first line break, with its `{}`), `thrown` an exception, with
-- `undefined_behaviour` for a read of an empty optional or through a null pointer.
--
-- Parser.Tokens and Parser.Compare: the enums and variants of src/lib/analyzer/parser.hpp, and
-- `same_variant`, `same_variant_and_value` and `operator==` of parser.cpp; Parser.Equality says
-- when tokens compare equal. A struct with one field is its field; a double is its 64 bits.
--
-- Parser.Tokenizer: `tokenize` and `make_tokens_explicit` of tokenizer.cpp. The loop that inserts
-- spaces has one round for each byte of the text and one more, the loop over the words one for
-- each byte and one more; Reference shows that this is enough and what they compute, Bytes that no
-- byte is lost, and Rejoin, Lexemes, Plain and Spelled are about texts of words with a space
-- behind each. Patterns has the regular expressions as recognisers, Parse `Parser::parse`, with
-- `std::stod` as a parameter, and Validate `validate`. Parse.Sized and Validate.Agrees are about
-- the tokens that come out. Parse.Phrases says how tokens are written; Decimal, Print, Words, Read
-- and RoundTrip are about reading them back, and Server.Query.Printed about what `resolve` then
-- gets.
--
-- Serializer.Layout: `ColumnType` and `Layout` of src/lib/serializer.hpp, `Layout::operator==` of
-- src/lib/table.cpp. Serializer.Laws is about that comparison.
--
-- LinkedList.KeyValueList: `KeyValueList` of src/lib/linkedList.hpp as the sequence of its pairs.
-- `i_u`, `u`, `i`, `pop_k` and `g` are `insert_update`, `update`, `insert`, `delete_key` and
-- `get`. Laws and Unique are about the values and the keys, Refinement about the list as a partial
-- function. ListFre and Cortina are the two other lists that SELECT uses. LinkedList.ListBase has
-- the nodes of all of them on an explicit heap, with the operations of `ListBase` and `List`;
-- Linked says when the nodes are a sequence, Splice and Insert are about their pointers, and Push,
-- Order, Sorted, Delete, Destroy, Copy and Walk about the operations. The loops of `push_ord` and
-- `~ListBase` have a round for each node that `size` counts.
--
-- Automata: `Automata::get_action_struct` of src/lib/analyzer/automata.cpp. Actions has the
-- structs of automata.hpp. State has `ctx` and `variant` as a record that the visitors pass on,
-- and the window of tokens that they see. Values, Symbols, Keywords, Identifiers and Operators
-- have the visitors of the token types, one function for each case, and Run the loop. The loop
-- counts down the tokens that are left, which are as many as it has rounds, so that the count is
-- enough for every query. The remaining modules under Automata are about it: Scan about the loop
-- and a walk along the list, Consistent about the actions that a context allows, Roots,
-- InsertQuery, TableQuery, NameQueries, ShowQueries and SelectQuery about the queries that give an
-- action, and Safety about exceptions.
--
-- Column: Stream has what `std::stringstream` and `static_cast` do to an integer, Cast the tests
-- of `ColumnInstance::resolve_value` in src/lib/columnInstance.hpp and of
-- `DatabaseTable::try_insert` in src/lib/table.hpp, which differ in their messages only, Range the
-- integers that a column holds, and Width which of them a cast takes, by the bytes of the type.
-- Codec has the bytes of a cell: `ENCODE` of `try_insert`, `DECODE` of
-- `ColumnInstance::load_column`, and the strings of serializer/src/lib.rs. The library bincode is
-- a parameter, and Documented says what it is relied on for: it reads back what it wrote, a number
-- has a fixed count of bytes, and a vector of bytes its length in front. A read may fail, and its
-- `unwrap` then ends the program, which Outcome has as `aborted`. File has `load_column` from the
-- contents of the file on, and the appends to a column file; its loop counts down the bytes of the
-- file, of which each round takes one at least. RoundTrip and Reload are about reading back what
-- is written, Cells and Aborts about the files that are read without a crash.
--
-- Table: TypeCheck has `DatabaseTable::try_insert` up to its lock, and Row which rows pass.
--
-- Server: `resolve` of src/main.cpp. Query has its steps from the text to the action, Databases
-- the databases in memory and `ColumnInstance::load_column` over column files that are a
-- parameter, Compare the comparisons of C++ on cells, and Select with Select.Answer the answer to
-- a `Show_Select`: the columns to display, the restrictions, which push the rows that satisfy them
-- to `indexes`, and the table of the rows that were pushed once for each restriction. How `{fmt}`
-- writes a value is a parameter. The other modules under Select are about it: Tally and Counts
-- about the counts in `indexes`, Holds about the rows that satisfy all restrictions, Shown and
-- Table about what is displayed, Runs about the end of the loops, Exact about the answer as a
-- whole, Compared about restrictions by the type of their column, and Missing about a request with
-- nothing to display.
--
-- Tests has concrete texts, queries, columns, rows and files below it, and in LittleEndian the
-- encoding of bincode.
--
-- How they interact: `read_query` of Server.Query chains the tokenizer, validate, parse and the
-- automaton, whose condition that a size follows every STR parse establishes; the automaton builds
-- the columns of a CREATE TABLE with `insert` of the key-value list and layouts of
-- `from_parser_type`, and the row of an INSERT as a list of literals; the table casts such a row
-- by the layouts of its columns.
--
-- Not modelled: the files of databases and tables, the actions of src/main.cpp other than SELECT,
-- the start of the server, locks, sockets, logging, the Rust libraries of fm and server, and the
-- client toi. What `get_action_struct` prints to `std::cout` is left out, and of what `resolve`
-- sends all but the errors and the last table. The rows of a column are fewer than 2 ^ 31, the
-- range of the `int` that counts them. Numbers of a query are natural numbers and integers without
-- a bound; the casts compare them with the limits of each type. The sizes of columns wrap as a
-- `uint64_t` does where they are added to; memory has no bound.
mod Prelude
pub mod Outcome
pub mod LinkedList
pub mod Parser
pub mod Server
pub mod Serializer
pub mod Automata
pub mod Column
pub mod Table
mod Tests
