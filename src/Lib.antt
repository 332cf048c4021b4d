-- ===== src/Lib.antt =====
-- NGinx memcache proxy: a collection of nginx modules that serve answers from memcached and let
-- configurations compute with variables.
--
-- The program and the files that model it
--
-- - c/ngx_http_memcached_more_module is the upstream handler for memcached: it asks for the key
--   in a variable and passes the value to the client between two variables, a prefix and a
--   suffix. Mcm has the types that its parts share. Mcm/Handler is `ngx_http_mcm_handler`,
--   Mcm/Request `ngx_http_mcm_create_request`, Mcm/Header `ngx_http_mcm_process_header`,
--   Mcm/Filter `ngx_http_mcm_filter_init`, `ngx_http_mcm_filter` and `ngx_http_mcm_add_suffix`.
--   Mcm/Deliver composes them the way nginx calls them. Mcm/Conf is the configuration of a
--   location; Conf/Merged says what it takes from the blocks around it, Conf/Passing what
--   memcached_pass gives. Proofs stand in Mcm/Header/Accepts, Mcm/Header/OwnKey,
--   Mcm/Filter/Chunks and Mcm/Deliver.
-- - c/ngx_util/mc_protocal.h is a table-driven parser of the memcached protocol: McProtocol has
--   `mc_parse` and its helpers. A round of its loop is a function from the parser's state to a
--   step, and the loop is recursion on the table, since each round goes to the next entry or
--   returns. McProtocol/Scan has the inner loops, Bounds, Rounds, Request, Answer and Resume the
--   proofs.
-- - c/ngx_util/ngx_util.h has the helpers on strings: Util/Append (`append_str` and its kin),
--   Util/Join (`array_join`), Util/JoinX (`array_join_x`, with what a line is in JoinX/Line, the
--   loop on the lines in JoinX/Whole and the length that is allocated in JoinX/Room), Util/Tokens
--   (`next_tok`, `str_to_array`), Util/Html (`ngx_htmlencoding`), Util/VarName
--   (`ngx_http_get_var_name_str`), Util/McdConnect `ngx_mcd_connect` of ngx_memcached_util.h.
--   Util/Conf says how a directive fails.
-- - c/ngx_http_arrayv_module: Arrayv has the get and set handlers of array variables, two arrays
--   with counters; Arrayv/Slots says what each access does to an array, Arrayv/Deque relates the
--   handlers to sequences, Arrayv/Sequence runs of them, Arrayv/Listing the listing of all
--   values. Arrayv/Format is the reader of the formats of print_array: Format/Spelling says how
--   texts are spelled, Format/Reads what each loop gives, Format/RoundTrip and Format/Single put
--   them together. The handlers call `str_to_array` and `array_join_x` of Util; Arrayv/Printing
--   composes the listing with the latter. Arrayv/Directives has array_var and the directives that
--   append codes; Directives/Script runs the codes on the stack, the variables and the contexts
--   of a request, with single steps in Directives/Steps, and Directives/Run leads from the
--   arguments of directives to sequences of values.
-- - c/ngx_http_list_module: ListVar has the handlers of list variables; ListVar/Words says what
--   the words of a string are, Item and Random are about `getitem` and `getranditem`. They scan
--   with `next_tok` of Util. ListVar/Directives has the directives on a table of variables, and
--   Directives/Linked says that an item reads its list.
-- - c/ngx_http_rv2_module: Rv2 has the script codes that read and write memcached while a request
--   is handled, from the choice of the backend to what they push on the script stack; Rv2/Balance
--   counts the strings. Rv2/Declare is `rv_dec` and the searches by name, with Declare/Names on
--   what is found; Rv2/Compile has the directives that append codes. Rv2/Upstreams makes the
--   nodes and their table from nginx's upstreams and connects them, and Upstreams/Found says what
--   a name gives. Rv2/Engine runs the codes on the stack, the variables and the store of
--   memcached: Engine/Results gives what a code pushes as one pair, Engine/Runs runs it with the
--   codes behind it, Engine/Getters leads from the arguments of a directive to its run,
--   Engine/Setters says what a setter does whose codes move, Engine/RoundTrip leads from a setter
--   to a getter, and Engine/Increments says what rv_incr counts.
-- - c/ngx_util/ngx_hash_util.h is the hash table in which rv2 keeps its upstreams: HashTable has
--   its operations, HashTable/Find what lookups give after an addition.
-- - c/ngx_http_repl_module: Repl is `replace_pattern` and the handler that puts a pattern in
--   place of each item of a list. Repl/Pattern and Repl/Page say what they write. Repl/Conf has
--   the directive, and says which variables a request reads.
-- - c/ngx_http_httpcheck_module: Httpcheck is the handler, `create_request` and `process_header`
--   of the checks of servers, with its searches. Httpcheck/Search says what the searches find,
--   Httpcheck/Split which answers are accepted, and what comes of one that is cut in its header.
-- - c/ngx_http_usset_module: Usset makes the table of the configured upstreams with the
--   operations of HashTable and looks names up in it. Usset/Chains says what the buckets hold,
--   Usset/Lookup what a name gives.
-- - c/ngx_http_rv_module, the first version of rv2: Rv has the get and set handlers of remote
--   variables on a memcached library that is an argument, Rv/Command the directive that declares
--   them. Rv/Counters is about incr and decr.
-- - c/ngx_http_rand_module: Rand gives random numbers of a range, and Rand/Range says which.
-- - Base passes on library names and has the lemmas on tests, lists and memory.
--
-- How state is modelled
--
-- Bytes are natural numbers, and a string is a list of them. Pointers into one buffer are offsets
-- or the bytes from there on; what stands behind a string in memory is written out where the code
-- reads it. A NULL pointer is `none`. Lengths that the code keeps in `size_t` or `off_t` wrap at
-- 2 ^ 64 where the code can make them wrap. An allocation is a Boolean argument that tells whether
-- it succeeds; where the code reads memory that it never wrote, that memory, or whether it is
-- zero, is an argument too. Functions of nginx (`ngx_atoof`, `ngx_atoi`,
-- `ngx_escape_uri`) and of the memcached library are arguments. A crash, an access outside an array,
-- or a pointer followed that was never written, is a result of its own.
--
-- Loops are structural: on the bytes that are left, on the table of the parser, on the number of
-- pushes that memory allows in `str_to_array`, and on the random numbers drawn in `getranditem`.
-- The last two loops need not end in the code, and a model without a bound would not stand for them.
-- The loop between the parentheses of a format takes a number of rounds; as many as there are `$`
-- are enough where the format is closed.
--
-- Not modelled: log messages, the directives and the merge of configurations of httpcheck, nginx
-- itself, the modules time, vwrite and empty, the connections that rv makes when a process starts,
-- and the client of sdb.
pub mod Base
pub mod Mcm
pub mod McProtocol
pub mod Util
pub mod Arrayv
pub mod ListVar
pub mod Rv2
pub mod HashTable
pub mod Repl
pub mod Httpcheck
pub mod Usset
pub mod Rv
pub mod Rand
