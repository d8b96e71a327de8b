-- ===== src/Lib.antt =====
-- MTSC: a two-stage KV cache transfer connector for vLLM (mtsc/, proxy/).
--
-- A decode engine first loads the prefix of a prompt that the Mooncake Store has and then pulls the
-- rest from the prefill engine that computed it. The scheduler side (mtsc/scheduler.py) decides, for
-- each request, what to load, to pull, to save and when the blocks of a finished request may be
-- freed. Once a step it hands its decisions to the workers as metadata (mtsc/protocol.py). The
-- worker side (mtsc/worker.py) submits them to the Store pool (mtsc/kv_cache_pool.py) and to the
-- transfer (mtsc/kv_transfer.py), polls both, and reports what has finished back to the scheduler.
--
-- Files:
--   Protocol: the records of mtsc/protocol.py, field by field. Times are milliseconds.
--   Scheduler/State: the state of `MTSCScheduler`, its configuration, and requests.
--   Scheduler/Admission: `get_num_new_matched_tokens`, `_truncate_mamba_prefill` and
--     `_validate_transfer_params`. Scheduler/Allocation: `update_state_after_alloc`.
--   Scheduler/Saves: `_append_blocks`, `_build_save_meta` and the loops of `build_connector_meta`
--     that plan the saves. Scheduler/Publication: the rest of `build_connector_meta`.
--   Scheduler/Release: `request_finished` and `update_connector_output`.
--   Scheduler/Lifecycle and Scheduler/TwoStage: what several of these do together.
--   Worker/State: the state of `MTSCWorker` and the events of both backends. Worker/Loads: the two
--     stages of a load (`_suffix_blocks`, `_start_transfer`, `_aggregate_recv_finished`).
--     Worker/Finished: preemption, the metadata of a step, `_aggregate_send_finished` and
--     `get_finished`.
--   Transfer/Regions: `_get_tp_ratio`, `_expand_transfer_regions`, `_compute_sender_transfer_plan`,
--     `_validate_asymmetric_region_lengths` and `handshake_target_ranks` of mtsc/kv_transfer.py.
--     Transfer/Runs: `group_concurrent_contiguous` and the copies of its runs. Transfer/Request:
--     `_build_request_transfer_params`. Transfer/Sender: the sender's event loop (`_prepare_send`,
--     `_publish_send`, `send_kv_to_decode`, `fetch_finished_sending_reqs`, `_cancel_send`), and
--     Transfer/Sender/System: these as steps that follow each other in any order.
--     Transfer/Sender/Responses: what it answers a pull, and `_build_transfer_params`. Transfer/Receiver:
--     the receiver's event loop (`_start_receive`, `process_pulling_result`, the loss of a peer,
--     `fetch_finished_recving_reqs`, `_wait_for_receives`). Transfer/Bootstrap: `BootstrapServer` and
--     `_connect_to_prefiller_bootstrap`.
--   Pool/Chunks: `process_tokens`, `_process_tokens`, `_loaded_prefix` and `_range_blocks` of
--     mtsc/kv_cache_pool.py. Pool/Saves: `_merge`, `save`, `_advance_save` and the saves of `poll`.
--     Pool/Loads: `load`, `_load_work`, the loads of `poll`, `take_errors` and `preempt`.
--     Pool/Io: `_save`, `_load` and `prepare_value`. Pool/Handover: what a load leaves to the transfer
--     that follows.
--   Lookup/Bytes, Lookup/Blob and Lookup/Rpc: the frames of a lookup, the sequence of hashes that the
--     server reads from them (`_CompatBlobBlockHashes`), `StoreLookupClient._lookup` and
--     `StoreLookupServer._serve`. Lookup/Client: the futures of `StoreLookupClient`. Lookup/Keys: the
--     keys of `MooncakeKVCachePool.lookup` and the blocks that are there. Lookup/Coordinator:
--     `_find_hit_blocks` of `MooncakeStoreCoordinator`. Lookup/Masks: `find_longest_cache_hit`,
--     `load_mask` and `store_mask`. Lookup/EndToEnd: all of these together.
--   Proxy/Session: the endpoints, sessions, headers, bodies and records of proxy/pd_proxy.py
--     (`_new_session`, `_headers`, `_prefill_body`, `_decode_body`, `_finish`). Proxy/Stream:
--     `_stream_decode`. Proxy/Handle: `_handle` up to the stream.
--   Registration: `npu_registration_regions` of mtsc/utils.py, on tensors as places in memory.
--   EffectiveTp: `effective_tp` of mtsc/utils.py.
--   Common: the names that the others share: Python's dictionaries, sets, lists, signed numbers,
--     dynamic values and exceptions. Tests: runs at concrete inputs.
--
-- The model: a method takes the state, a record with the fields of the object, and returns the new
-- one with its result. An exception is a value; the state that it leaves behind is modelled for
-- `get_finished` only, which an exception may end as a transfer starts.
-- vLLM's requests are looked up by name in a function that stands for the shared objects, and a block
-- table is a value, so that two names for one table are not modelled. Where the code subtracts, the
-- difference of natural numbers stops at 0; the scheduler keeps those that are used from being
-- negative. A zip of lists that the code checks to be equally long stops at the shorter one. The clock
-- and what a thread or a backend has come to are arguments. Loops are recursions over lists, but for
-- two on fuel: the decimal digits of a number, of which a number n has fewer than n + 1, and the
-- rounds of the coordinator's search, each of which lowers the length, so that one more than it is
-- enough.
--
-- Parameters: the lookup of the Store, through the operations that the scheduler calls
-- (`Scheduler.State.LookupOps`) and their laws (`Scheduler.Admission.Decisions.LookupLaws`): a lookup
-- finds no more than it is asked for, if the request has none under way that was asked for more. The
-- client of Lookup/Client is one implementation. The network between client and server, the Store's
-- answers, what Python's `int` reads from a text, and vLLM's cache managers with their views of the
-- hashes are parameters too; of a manager the bounds use that it finds no more blocks than the length
-- asked of it has room for. Block sizes are not 0.
--
-- An event loop of the transfer runs one function between two waits, so each part of a coroutine
-- between two waits is a function of the loop's state. The objects that coroutines of the sender share
-- live in a store under references; the entries of a pull are shared by the tasks of that pull only.
--
-- Not modelled: logging, device events, sockets, HTTP and threads, the registration of memory, the
-- grouping of specs when the coordinator is built, the reset of the Store from the scheduler, an
-- exception of the engine's write, after which the sender does not answer, the connector class, which
-- delegates each call by role, and the rest of the proxy: HTTP, the times in a record, the metrics
-- file and the command line.
-- A source counts its answered peers; that a peer asks only once is not proved, so neither is that
-- each of them was served when a source is reported as sent.
pub mod Common
pub mod Protocol
pub mod Scheduler
pub mod Worker
pub mod Transfer
pub mod Pool
pub mod Lookup
pub mod Proxy
pub mod Registration
pub mod EffectiveTp
pub mod Tests
