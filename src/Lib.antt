-- ===== src/Lib.antt =====
-- Verification library of the authorization server (Go packages under pkg/ and internal/).
--
-- The program keeps relationship tuples `object#relation@user` in a datastore and answers checks over them. A write
-- request passes the write command (validation, then the datastore), which stores tuples and a changelog; a read or a
-- check takes tuples from the datastore through iterators, and a check combines the outcomes of its branches by reducers.
--
-- Base: texts as lists of code points, Boolean tests and lists over native numbers, decimal numbers (strconv).
-- Tuple: pkg/tuple/tuple.go. Key holds the messages and conversions, Split the parts of objects and users, Valid the
--   IsValid functions (each loop a recursion on the characters), User and Parse the strings. Grammar, Userset, Lacks,
--   Slices, ParsePrint, UserForms, UserRoundTrip and Order hold the proofs.
-- Storage/Record: pkg/storage/record.go, errors.go and the options of storage.go. A ULID and a time are numbers, a
--   condition's context is a type parameter.
-- Storage/Memory: pkg/storage/memory/memory.go. The maps of MemoryBackend from a store are functions; a lock is left
--   out, a call runs alone. Match is `match` and `find`, Write is `Write` with its two loops and
--   sanitizeTuplesWriteDelete, Read is `read`, ReadPage, ReadUserTuple, ReadUsersetTuples and the iterator. The ULIDs
--   that a Write mints are a parameter. Keys, Changelog, Distinct, Consistent, Sanitize, Effect and Success prove what
--   Write does; Paging, Usersets and Prefix are about reads and partial keys; Starting is ReadStartingWithUser, with
--   `sort.Slice` as a parameter; Changes is ReadChanges, where a ULID is a number, its text is a parameter and the horizon
--   is not negative, Later what it collects and Followed what a client gets that follows its tokens.
--   Described says what a ReadFilter asks for. Models holds the authorization models and the assertions, Stores the
--   stores, Listing what their listing is, Pages how both listings are cut. The sum of an offset and a page size does not
--   wrap.
-- Storage/Iterators: pkg/storage/tuple_iterators.go and internal/iterator/merge.go. An iterator is a record of methods
--   over a state; `Yields` and `Peeks` say that it gives the items of a list. Ops is the static and the combined
--   iterator, Wrap the tuple key and the filtered one, Conditions the one that evaluates conditions, Merged the merge;
--   Streams, Filters, Answer, Verdicts, Heads, FirstReads, Merging and Faults are about these, in this order. An unbounded `for` takes fuel: one round
--   more than there are items is enough, and the theorems say so. A value returned beside an error is left out.
--   So is the Stop of an inner iterator that the combined one drops.
-- Check: internal/graph/check.go, default_resolver.go, resolve_check_request.go and resolve_check_response.go. In Reduce
--   and Exclude the goroutines of union, intersection and exclusion are the order in which the loop's select receives:
--   outcomes, a closed channel, or the end of the context. A handler that returns no error is taken to return a response.
--   Verdict and Orders prove what they answer. The pool and its limit only restrict the orders. Request, Direct,
--   Dispatches and Resolve are `ResolveCheck` with what it calls: the checker is its own delegate and reads the in-memory
--   datastore, no context ends, every handler runs to its end, the orders of arrival are parameters, and so are the graph
--   of `PathExists` and the evaluation of a condition. The weighted graph offers neither the weight-two nor the recursive
--   resolver, so the planner has no choice. The fuel counts the calls of `ResolveCheck` on a path. Derivation says what it
--   is for a user to have a relation; Found, Outcomes, Excluded, Messages, Grounds, Dispatched and Sound lead from an
--   answer to it, Total and Ends show that the depth limit and the visited paths make a check end.
-- Typesystem: pkg/typesystem/typesystem.go. A Go map is a list of keys and values; where a loop visits a map, which of
--   several errors it returns is open. Model is the authorization model and `newWithoutGraphs`, Lookup the relations,
--   Rewrites the walks over a rewrite, Restrictions the checks of names, type restrictions and conditions, Cycles
--   `HasCycle`, Entrypoints `hasEntrypoints` (the outer map of visited relations is cloned by a call and the inner ones
--   are shared), Accept `NewAndValidate`. Both searches take fuel, for each the count of the relations that it can
--   visit; Cycles/Fuel and Entrypoints/Ends show that this is enough. Entrypoints/Steps and StepsEnd do so for a rewrite
--   with no operands. The graphs that a type system attaches are a parameter.
-- Validation: internal/validation/validation.go over that type system. Struct is `ValidateStruct`, Users the user, object
--   and relation of a tuple, Conditions its condition, Tuples the whole; Shapes, Fits and Accepted prove what an accepted
--   tuple has. The conversion of a context's value to a parameter's type is a parameter.
-- Containers: internal/containers/mpmc/queue.go, the calls of a queue run one at a time. Queue is the ring with its
--   sequence numbers, Bits the power of two and the mask on binary digits, Modulo the remainders, Holds what the slots
--   hold, Fifo the bounded list that it stands for, Rounds, Simulation and Runs the proof, Bounds how far the buffer
--   grows. A Send takes two rounds at most and a Recv one, and the theorem shows that this is
--   enough.
-- Commands: pkg/server/commands/write.go. The datastore, the type system, the validation of a tuple against the model
--   and the byte size of a context are parameters; the translation of an error to a status is left out. Write is the
--   command, Checked what a request has passed, and Validated the command with the type system and the validation of
--   Typesystem and Validation, where the model's graphs stay a parameter.
-- Examples: concrete runs of the theorems.
--
-- Not modelled: the weighted graph of the type system and what is resolved over it, the planner, the weight-two and the recursive
-- resolver, the cached and throttled resolvers, list objects and list users,
-- OrderedCombinedIterator, the SQL datastores,
-- caches, throttling, authentication, transport, telemetry and configuration. Tracing spans and log lines are left out.
pub mod Base
pub mod Tuple
pub mod Storage
pub mod Check
pub mod Typesystem
pub mod Validation
pub mod Containers
pub mod Commands
pub mod Examples
