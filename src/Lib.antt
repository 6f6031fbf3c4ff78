-- ===== src/Lib.antt =====
-- A model of bxcommon, the Python library that the nodes of the bloXroute network share, and proofs
-- of what its parts promise.
--
-- A node keeps connections to its peers. What a peer sends is gathered in an input buffer, and what
-- goes to it waits in an output buffer, beside which a tracker notes which messages the bytes belong
-- to. The messages carry transactions and blocks, in which short ids stand for transactions; a
-- service stores the contents and the short ids, and forgets them by age, by memory and when a block
-- is old enough. Nodes that come late are sent the service's content in sync messages.
--
-- The files, and the code that they follow. Names of functions and fields are those of the code, in
-- snake case; a leading underscore is left out.
--
--   Prelude            shared names: lists, dicts (association lists with each key once), sets
--                      (lists without repetition), integers, byte strings, errors as values
--   Expiration         src/bxcommon/utils/expiration_queue.py; callbacks run on the owner's state
--   Alarms             Queue is src/bxcommon/utils/alarm_queue.py: Heapq is heappush and heappop of
--                      Python's heapq, with the order of a heap. Ordered, Kept and Reached have the
--                      counts and the order of the alarms under sequences of calls, Represented the
--                      heaps that the list of alarms stands for, Fired the loops that fire them.
--                      Dict is src/bxcommon/utils/expiring_dict.py, which uses both queues
--   Transactions       src/bxcommon/services/transaction_service.py: State has the attributes of
--                      `TransactionService`, Removal, Assign and Expiry its methods. Core and Valid
--                      have the invariant, Safe and SafeKey the removals, Memory and Storing the
--                      memory limit, Unassign, Alarms the timed methods, Reach sequences of
--                      calls that return
--   Buffers.Input      src/bxcommon/utils/buffers/input_buffer.py; its contents are the joined pieces
--   Buffers.Output     src/bxcommon/utils/buffers/output_buffer.py, as a queue of unsent bytes
--   Buffers.Tracker    src/bxcommon/utils/buffers/message_tracker.py
--   Serializers        src/bxcommon/messages/bloxroute: ShortIds is short_ids_serializer.py,
--                      CompactBlock compact_block_short_ids_serializer.py, Blocks
--                      blocks_short_ids_serializer.py, Infos transactions_info_serializer.py, Txs
--                      txs_serializer.py. Wire has `struct` and slices, and what it is for a writer
--                      to write bytes and for a reader to read them; Hash is `Sha256Hash` of
--                      src/bxcommon/utils/object_hash.py
--   Collections        src/bxcommon/utils/limited_size_set.py, limited_size_dict.py, and
--                      src/bxcommon/utils/collections/priority_queue.py
--   Rlp                src/bxcommon/utils/blockchain_utils/eth/rlp_utils.py: BigEndian, Prefix, Ints and
--                      Items are proofs; the Python types `str` and `list` are a data type
--   Messages           src/bxcommon/messages: Message is abstract_internal_message.py and
--                      bloxroute/abstract_bloxroute_message.py, Factory abstract_message_factory.py,
--                      Validator bloxroute/bloxroute_message_validator.py, Cleanup
--                      bloxroute/abstract_broadcast_message.py and abstract_cleanup_message.py
--   Connections.Pool   src/bxcommon/connections/connection_pool.py
--   Connections.Broadcast
--                      src/bxcommon/services/broadcast_service.py, over the pool and the output buffers:
--                      Recipients says on the pool to whom a message is addressed, Outgoing what
--                      is sent
--   Connections.Processing
--                      process_message of src/bxcommon/connections/abstract_connection.py: Body has a
--                      round of the loop and its handlers of exceptions, Spec what the loop is to do
--                      with a whole message and what it relies on in a protocol, Bloxroute such a
--                      protocol. Delivered says on types and payloads what is to be done with new
--                      messages. Frame, Round, Partial, Ends, Stream, Bad and Built are proofs
--   Feeds              src/bxcommon/feed: Subscriber is subscriber.py, Feed feed.py, with what publish
--                      is to do in Published, and Manager feed_manager.py
--
-- `heapq` is Python's: the heap of all alarms, of which the code reads and pops only the first, is the
-- sorted list of its elements (Represented relates both), and the heaps of approximate alarms, whose
-- elements change in place, are lists as heapq has them.
--
-- Methods take the state and give the new one. An exception is a value of `Result`, and gives up the
-- state that its method had reached. A time is a number of ticks, and does not change during one
-- call. Hashes, keys and ids are numbers where they are only compared; a transaction's cache key is
-- its hash. Objects that are shared have a number, and a heap has their attributes.
--
-- The loop of `process_message` takes at least a header off the input buffer in each round, so that
-- one round more than the buffer has bytes is enough fuel. A subclass's factory, validator and
-- handlers of messages are the fields of a record; a handler works on the connection's session and
-- leaves the input buffer alone. The loop of `_memory_limit_clean_up` has as much fuel as the
-- assignment queue has entries: each round pops one. The loop that extends the list of a connection
-- pool has one more than the file number: each round adds entries. The loop of `fire_alarms` has one
-- more than there are alarms, and `fire_ready_alarms` has two rounds: an alarm that is scheduled anew
-- is no longer due. The items of an RLP list have one more than the list has bytes, since each takes a
-- byte at least, and the bits of a number as many rounds as it counts. The other loops run along a
-- list.
--
-- Not modelled: logging, metrics and memory statistics; sockets, HTTP, web sockets and the event
-- loop; most classes of messages and their versions; the feeds of Ethereum; the look-ups and
-- snapshots of the transaction service; Ethereum structures, which need the rlp package.
pub mod Prelude
pub mod Expiration
pub mod Alarms
pub mod Transactions
pub mod Buffers
pub mod Serializers
pub mod Collections
pub mod Rlp
pub mod Messages
pub mod Connections
pub mod Feeds
