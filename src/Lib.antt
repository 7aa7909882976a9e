-- ===== src/Lib.antt =====
-- PostGraph, a graph query engine inside PostgreSQL: its graph core in C.
--
-- Parts of the program and the files that model them, with the source's names kept:
--
-- GraphId - src/include/utils/graphid.h, src/backend/utils/adt/graphid.c. The id of a vertex or
-- an edge, its label in the upper 16 bits and its number in the lower 48, as a number below 2^64;
-- make_graphid, the two projections, `graphid_of` for the SQL function _graphid, the operators
-- and the btree comparison, which read the bits as two's complement. GraphId/Packing has the
-- packing, GraphId/Order the comparisons.
--
-- Queue - src/backend/utils/adt/queue.c. Linked nodes and containers in a memory; the address
-- that palloc0 returns is an argument. Queue/Chain says which list of ids a container holds,
-- Queue/Stack is about push and pop, Queue/Appended about append_graphid, Queue/Freed about the
-- frees, whose loop is given one round more than there are nodes. The other parts hold a queue as
-- its list of ids.
--
-- GlobalGraph - src/backend/utils/path_finding/global_graph.c. A graph of the session, loaded
-- from the label tables into a hash table of vertices, each with its lists of edges, and one of
-- edges. The rows that a scan returns are a `Catalog`, the snapshot's numbers a `Snapshot`.
-- GlobalGraph/WellFormed is the invariant, GlobalGraph/Insertion and GlobalGraph/Preserved are
-- about one more edge, GlobalGraph/Loading is the load of the tables and GlobalGraph/Contexts the
-- list of the contexts of a backend, with its checks against the snapshot. GlobalGraph/Freeing is
-- the walk that frees a context; the list of contexts itself only forgets it.
--
-- PathFinding - src/backend/utils/path_finding/dfs.c. The search for variable-length edges over a
-- loaded graph: `Search` is what the search reads, `State` its three stacks and its table of
-- visited edges. One `round` is one pass of the loop in dfs_find_a_path_between, which hands out
-- one path and is called again for the next. The model of the loop takes fuel, the rounds that
-- are left; PathFinding/Calls is about the rounds and calls that are enough, each branch of the
-- search being finite since no edge is used twice. PathFinding/Spec describes the search without
-- stacks, and PathFinding/Edges, Rounds and Runs set the code beside it; PathFinding/Trails says
-- which paths are asked for, Sound and Complete set the found ones beside these, and Correct puts
-- all together. PathFinding/Container is build_path_container, the array of a found path.
--
-- VariableEdge - create_variable_edge and _ag_enforce_edge_uniqueness of
-- src/backend/utils/path_finding/dfs.c. VariableEdge/Built is about the value that is made of the
-- array of a path, VariableEdge/Unique about the test that all edges of a MATCH are different.
--
-- PathFinding/Vle is build_vle_context and gtype_vle, from the arguments and the tables to the
-- rows. PathFinding/Vle/Asked says which paths the SQL arguments ask for, over a graph and
-- without the search, PathFinding/Vle/Searched that the search made of them finds these, and
-- PathFinding/Vle/Started sets the first call beside it.
--
-- Gtype - src/backend/utils/adt/gtype_util.c, and src/include/utils/gtype.h, the values of the
-- language. Gtype/Offsets is about where the parts of a container stand, from the lengths and end
-- offsets of its entries; Gtype/Object about the pairs of an object and the order of their keys,
-- where qsort_arg of PostgreSQL is a parameter. Gtype/Scalar has the scalars and, in Compare and
-- Networks, how two of them are compared and tested for equality; the functions of PostgreSQL and
-- PostGIS over their own types are the fields of `ScalarOps`, and what a theorem uses of them are
-- the fields of `IsSigned` and `IsExact`. Gtype/Value has the nested values, as trees: a
-- container is what a tree says that its entries are, and the bytes are not modelled.
-- Gtype/Iterator is the iterator over a container, a list of positions, Gtype/Builder the stack
-- of states in which push_gtype_value builds one, with the allocated room of each. Gtype/Find has
-- the search for an element and for a key, Gtype/Contains gtype_deep_contains, Gtype/Orderability
-- compare_gtype_containers_orderability, Gtype/Hash the hashes of scalars, Gtype/Entries how the
-- entries of a container are written, and Gtype/Serialize, with
-- src/backend/utils/adt/gtype_ext.c, how many bytes convert_gtype_value takes for a value. The
-- loops over tokens take fuel for one call more than there are tokens, the binary search for one
-- round more than there are pairs, and gtype_deep_contains for its depth, of which the number of
-- nested containers is a bound; the theorems show that this is enough.
--
-- Text - src/backend/utils/adt/gtype_parser.c, and of src/backend/utils/adt/gtype.c the input
-- function gtype_from_cstring and the output functions around gtype_to_cstring_worker. A text is
-- the list of its bytes, and a pointer into it what is left of it. Text/Context is the context of
-- the lexer, Text/Strings has gtype_lex_string, Text/Numbers gtype_lex_number, Text/Lexer
-- gtype_lex, and Text/Parser the recursive descent, over any semantic actions. Text/Input has the
-- actions of gtype_in, which push the tokens into the stack of Gtype/Builder, and Text/Output the
-- loop that writes the tokens of Gtype/Iterator. The input and output functions of PostgreSQL are
-- the fields of `InputOps` and `OutputOps`, its encodings those of `Encoding`.
-- Text/Numbers/Grammar describes the numbers, Text/Numbers/Read is about reading them and
-- Text/Numbers/Parts and Valid about which texts are accepted, Text/Output/Shown the text of a
-- value by recursion on the value, and Text/Readable the values that are read back; the files
-- below Text/Input say what the parser makes of the text of such a value, and Text/RoundTrip puts
-- both directions together. The loop of gtype_lex_string takes fuel for one round more than there
-- are bytes, each round taking a byte; the parser takes fuel for four calls for each byte, and
-- the loop that writes for one call more than there are tokens. Text/Strings/Ends,
-- Text/Lexer/Ends, Text/Parser/Taken and Text/Parser/Ends, Text/Input/Pushes and Text/Input/Ends
-- are about the end of the parser for any text.
--
-- How they meet: the search reads the graph that manage_graph_contexts returns, and the graph's
-- invariant is what the search relies on. get_rel_name of PostgreSQL, of which nothing is
-- assumed, and the comparison of properties are fields of `Search`. A report of the comparison is
-- one of the search; the theorems on the paths suppose that it returns for every edge of the
-- graph. PathFinding/Properties puts gtype_deep_contains there. Contains and Orderability read
-- containers through the iterator, Contains also through Find, and the keys that Find relies on
-- are in the order that Object gives them.
--
-- A C function returns an `Outcome`: a value, a report of level ERROR, a crash (at a NULL
-- pointer, behind an allocated block, or at a failed Assert), or the end of the model's fuel.
-- Counters count allocated objects, and are numbers without a bound.
--
-- Not modelled: the parser and the planner, the executor nodes, catalog and DDL, the casts of
-- gtype and the conversion of other SQL types to it, its SQL functions and operators, the bytes
-- of its containers, the line and the context that a report of the parser shows and its check of
-- the depth of the stack, the binary layouts of vertices and edges, the index access method,
-- memory contexts and locks. A new graph context is linked into the list of the session before
-- its tables are loaded; the half-loaded one that an error of the load leaves there is not in the
-- model, whose errors leave no state. The dimension of a vector is a uint16, which wraps; the
-- model's list of numbers has no bound.
pub mod Prelude
pub mod GraphId
pub mod Queue
pub mod GlobalGraph
pub mod PathFinding
pub mod VariableEdge
pub mod Gtype
pub mod Text
