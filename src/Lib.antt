-- ===== src/Lib.antt =====
-- A model of the core of jina, the neural search framework: the graph of a Flow and how it is
-- built, the arguments and the wiring of its pods, how a pea handles messages, the drivers that
-- route, traverse and filter, and the look-ups in documents of the query language.
--
-- A Flow (jina/flow/__init__.py) is grown by methods that add pods, each with the pods it needs,
-- and is then built: the needs become a map of outgoing edges, and a walk over that map
-- (jina/flow/builder.py) connects the tail of each pod to the head of the next one
-- (jina/peapods/pod.py) by a socket, a port and a host. The documents that run through the flow
-- are filtered and selected by keys such as `a__b__gt` (jina/drivers/querylang/queryset).
--
-- The files:
--   Prelude        shared names: results that are a value or an exception, dictionaries in the
--                  order of insertion, lists, Python's names, integers and text.
--   Enums          jina/enums.py.
--   Flow           the state of a Flow, `Flow`, and what its methods use; a pod's payload is a
--                  parameter, made by a `Factory` (`_invoke_flowpod`, `GatewayFlowPod`).
--   Flow/Add       `_parse_endpoints`, the setter of `last_pod`, `add`, `needs`, `needs_all`,
--                  `inspect`, `gather_inspect`, and `_hanging_pods` of the builder.
--   Flow/Traversal `_traverse_graph` of the builder.
--   Flow/Build     `build`, `_build_flow`, `_optimize_flow`, over an interface `Connector` to the
--                  pods; Flow/Connections fills it with the pods of Pods.
--   Pods           `_parse_args`, `_set_peas_args`, `_copy_to_head_args`, `_copy_to_tail_args`,
--                  `_fill_in_host` of jina/peapods/pod.py.
--   Pods/Link      `head_args`, `tail_args`, `connect`, `connect_to_tail_of` and
--                  `connect_to_head_of`.
--   QuerySet       Python's values as the look-ups see them.
--   QuerySet/Keys  dunderkey.py: keys and `dunder_get`; QuerySet/Nesting: `undunder_keys`,
--                  `dunder_truncate` and the selections of lookup.py.
--   QuerySet/Lookup  lookup.py and helper.py: `_lookup`, the trees, `filter_items`.
--   Peas           jina/peapods/pea.py: `msg_callback` with `pre_hook`, `handle`, `post_hook` and
--                  `expect_parts`; Peas/Messages: the envelope (jina/types/message/__init__.py).
--   Drivers/Route      jina/drivers/control.py: `ControlReqDriver`, `RouteDriver`.
--   Drivers/Rank       jina/drivers/rank.py: the three ranking drivers, and `pb_obj2dict` of
--                      jina/drivers/helper.py.
--   Drivers/Balance    a router with its dealers: `RouteDriver` and, of jina/peapods/zmq.py,
--                      `Zmqlet.send_message` and `send_idle`; each step is a message sent or read.
--   Drivers/Traversal  jina/drivers/__init__.py: `_traverse_apply` and `_traverse_rec`.
--   Drivers/Reading    jina/drivers/__init__.py: `QuerySetReader`.
--   Drivers/QueryLang  `_apply_all` of jina/drivers/querylang/filter.py, slice.py, reverse.py.
--   Drivers/Cache      jina/drivers/cache.py: the cache drivers, over a record of the two
--                      operations of an executor, which Drivers/CacheLaws fills with Executors/Cache.
--   Drivers/Reduce     jina/drivers/reduce.py; Drivers/Pointers has what is said of its pointers.
--   Drivers/Search     jina/drivers/search.py: `KVSearchDriver`; jina/drivers/evaluate.py:
--                      `LoadGroundTruthDriver`. Drivers/SearchLaws joins them to the index of
--                      Executors/KeyValue.
--   Drivers/Evaluate   jina/drivers/evaluate.py: `BaseEvaluateDriver`; jina/drivers/helper.py:
--                      `DocGroundtruthPair`.
--   Drivers/Sort       `_apply_all` of jina/drivers/querylang/sort.py and select.py.
--   Types/Uid      jina/types/document/uid.py: the identifier, the bytes and the hash of a document.
--   Types/Frames   the frames of a message: jina/types/message/__init__.py (`dump`, `_compress`),
--                  jina/types/request/__init__.py (the lazy request), jina/peapods/zmq.py
--                  (`_parse_from_frames`), over a record of what protobuf and the compressions do.
--   Helper/Batches jina/helper.py: `batch_iterator`; Helper/Options: `rename_kwargs`, `kwargs2list`,
--                  `get_non_defaults_args` and `get_readable_time`, of a duration in whole seconds.
--   Executors/Batching  jina/executors/decorators.py: `batching` and `_merge_results_after_batching`.
--   Executors/KeyValue  jina/executors/indexers/keyvalue.py: `BinaryPbIndexer`.
--   Executors/Cache     jina/executors/indexers/cache.py: `DocIDCache`.
--   Executors/Evaluators  jina/executors/evaluators/rank: precision and recall.
-- The other files hold theorems, and those called Tests runs and examples.
--
-- The state is passed on explicitly: a method gives the flow that it leaves, or an exception, so
-- that the flow that an exception leaves behind is not modelled. `copy_flow` is therefore not an
-- argument. The order of Python's sets is that of their first occurrence. A text of the flow is a
-- native string; the look-ups work on lists of code points, and `lower` changes ASCII letters
-- only. Names are checked by the ASCII part of `str.isidentifier`.
--
-- The fuel: the walk has 2 + 2 * e rounds for e edges, since only a round that follows an edge
-- puts names back on the stack, two at most; `dunder_get` has one call per character of the key.
-- Both are proved to be enough. The batches of an iterator have one round per item and one more,
-- and a range has one per number below its end: that the batches are all of the data proves it.
--
-- Parameters are what is not in the source: the machine's addresses and platform (`Machine`), the
-- random ports and identities (`Random`), `re.search`, which `uses` are local files, the choice of
-- `set.pop`, and what surrounds a pea: its executor, the clock and the memory (`Surroundings`). An
-- executor gives the request that it leaves and perhaps an exception; it does not write the envelope.
-- `np.concatenate`, `np.sort`, blake2b, `sys.byteorder` and the size of a page are parameters too. The division
-- of an offset by the size of a page is exact, which in Python holds below 2 ** 53. `list.sort` is an
-- insertion sort that is stable, as Python's is, and a generator is read to its end or to its first
-- exception, as the drivers do with those of the look-ups.
--
-- A driver of a traversal may change the documents that it is given and the one that owns them. It
-- keeps no reference to those of an earlier call; ReduceAllDriver, which does, has a model of its own.
-- The `eval_at` of precision and recall is not negative. A pea that drops a request while its memory
-- is short does not report to the router; the dealers of Drivers/Balance answer every request.
--
-- Not modelled: the processes of the peas and the calls of their sockets, the other drivers and executors, the
-- clients, the hub, the logging and the generated protobuf code.
mod Prelude
pub mod Enums
pub mod Flow
pub mod Pods
pub mod QuerySet
pub mod Drivers
pub mod Peas
pub mod Helper
pub mod Executors
pub mod Types
