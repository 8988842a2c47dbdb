-- ===== src/Lib.antt =====
-- A verification library of the utilities of this repository (`utils/`): the bit map, the shared and
-- reference-counted byte buffers with the stream over them, the timer manager with its thread, the text
-- conversions, the strings, the hash table, the map, the two-way map, and the INI files of `config/`.
--
-- The files and what they model:
--   Prelude      shared names: tests on numbers, lists with indices, a search over small numbers.
--   Outcome      what a C++ call may do: return, throw, or touch memory that it does not own.
--   BitMap       utils/src/bitmap.cpp, `BitMap`: `alloc`, `reserve`, `set`, `at`, `clear`, `count`, the
--                constructors (`new_default`, `new_sized`, `copy`), `operator=` (`assign`), `release`.
--                BitMap/Bytes and BitMap/Access are about the bits, BitMap/Storage about the room and the
--                copies, BitMap/Ones and BitMap/Count about the number of ones.
--   Buffer/Heap  the memory of the buffers, as a map from addresses to blocks, and a state monad on it.
--   Buffer/Shared      utils/src/sharedbuffer.cpp, `SharedBuffer`: `alloc`, `acquire`, `release`,
--                `edit`, `editResize` (`edit_resize`), `attemptEdit`, `reset`.
--   Buffer/ByteBuffer  utils/src/buffer.cpp, `ByteBuffer`: the constructors, `set`, `append`, `insert`,
--                `reserve`, `detach`, `clear`, `resize`, `operator=`, `operator[]` (`index`),
--                `freeBuffer`. Write and Insert relate them to the bytes that a buffer shows,
--                and Sharing is about copies.
--   Buffer/Stream      utils/src/buffer_stream.cpp, `BufferStream`: `write`, `read`, and the operators
--                `<<` and `>>` as `put_int`, `get_int`, `put_text` and `get_text`. Pending and Queue are
--                about its contract, Integers about numbers that are written and read.
--   Timer        utils/src/timer.cpp and utils/include/utils/timer.h: `Timer`, the comparator, and
--                `TimerManager`: `addTimer` (`add_timer`, `add_back`), `delTimer`, `stopTimer`,
--                `ListExpireTimer`. Timer/Order, Manager and Expire are about the set and them.
--   Timer/Loop   `TimerManager::threadWorkFunction`, as a step function that is cut wherever the thread
--                holds no lock. Pending and Runs are about its runs, Rounds about whole rounds, Waits
--                about how long it sleeps.
--   Convert      utils/src/convert.cpp: the macros, `isUTF8Encode`, `getChar`, `UTF82GBK`, `GBK2UTF8`.
--                Chars is about single characters, Texts about whole texts, Failures about any bytes.
--   Hash         utils/src/hash.cpp: `primeForNumBits`, `countBits`, the choice of the size in
--                `HashData::rehash` (`target_bits`), `HashCmptBase::compute` and `compute2`, which reads
--                words with the lowest byte first. Hash/Sizes is about the sizes.
--   Hash/Table   utils/src/hash.cpp and utils/include/utils/hash.h: `HashData` and the operations on
--                a table that is not shared: `rehash`, `grow`, `find`, `insert`, `at` (`assign_at`,
--                `at_or`), and the steps of iterators. Chains, Place, Rehash, Insert and Assign relate
--                it to a map from keys to values; Order, Back and Next are about iterators.
--   Hash/Sharing       `HashMap` with its copies: `RefCount`, the copy constructor, `operator=`, the
--                destructor, `clear`, `reserve`, `detach` and `insert` on tables that several maps own.
--                Copies is about copies.
--   Ini          config/IniConfig.cpp: `trim`, `parser`, `value`, `operator[]` (`set_at`), `del`.
--                Ini/Map is `std::map` with text keys. Texts, Lines, Reader and Fuel are about the
--                reader, Access about the access to what was read.
--   Ini/Keep     `keep`. Writer, Saved, Entering, Values and RoundTrip are about reading what was written.
--   CText        Texts of C and the functions of string.h that the strings call.
--   String8      utils/src/string8.cpp and utils/include/utils/string8.h, `String8`: the constructors,
--                `getBuffer`, `detach`, `release`, `clear`, `setTo` (`set_to`), `append` and the
--                operators over them. Memory, Blocks, Fresh and Writes are about the block of a string
--                and new blocks, Append and Reuse about `append`.
--   String8/Edit       `left`, `right`, `substr`, `resize`, `trim`, `trimLeft`, `trimRight`, `reverse`,
--                `removeOne`, `removeAll`, `replaceAll`, `toLower`, `toUpper`, and `formatV` and
--                `appendFormatV` (`format`, `append_format`). Spans, Trim and Blank are about `trim`,
--                Remove, Replace and Reverse about the operations of these names.
--   String8/Search     the comparisons, `operator[]` (`index`), `find`, `contains`, `find_last_of`,
--                `getNext` and `kmp_strstr`. Borders and Next are about `getNext`, Kmp about the search.
--   Map          utils/include/utils/map_node.h and utils/src/map_node.cpp, `MapData`: Data has `insert`
--                with `createNode` (`Creation`), `find`, `erase`, `nextNode` and `clear`; Tree has the
--                walks and the parameter `RedBlack`, Lists the entries in order. Lookups, Contents
--                and Erase relate them to the map from keys to values; Vines is a tree that the
--                tests run on.
--   Map/Sharing  utils/include/utils/map.h, `Map`: the constructors, `operator=`, `detach`, `destroy`,
--                `insert`, `erase` of a key and of an iterator (`erase_at`), `find`, `operator[]` (`at`),
--                `value` and `clear` on a `MapData` that several maps may own. Copying is about
--                `detach_helper`, Copies about copies.
--   RbtreeApi    utils/src/rbtree_api.cpp: `rbtree_insert`, `rbtree_search`, `rbtree_erase`,
--                `rbtree_foreach` and `rbtree_size` over the tree of `Map`. Places is about insertion,
--                Visits about the two that go through all nodes.
--   BiMap        utils/include/utils/bimap.hpp and bimap.h, `BiMap`: `insert`, `erase` of a key
--                (`erase_key`) and of a value (`erase_value`), `replaceValue`, `replaceKey`, `find` and
--                `contains` of a value, the constructor from a list, and `update` of an iterator's value.
--                Invariant is about how its two maps fit.
--
-- How the parts meet: a `ByteBuffer` points to a block of `SharedBuffer`, which several buffers may
-- own, and each write first makes the block its own (`edit`, `editResize`); a `BufferStream` writes with
-- `ByteBuffer::set` and `append`. A `String8` points to such a block as well; `find_last_of` works on
-- reversed copies, and `kmp_strstr` makes a temporary string for each call of `getNext`. The thread of
-- the timer manager shares its set with the threads that call `addTimer` and `delTimer`, each under the
-- lock: a run is a list of events, and one event is a locked operation of another thread or of a callback, or a step of the thread. A
-- `HashMap` points to a table and a `Map` to a tree that several maps may own, and each change first
-- gives it one of its own (`detach`).
--
-- Conventions, bounds and parameters:
--   - Numbers are natural numbers; where the source has a `uint32_t` or `uint64_t`, the wrap-around is
--     written out. `ByteBuffer::calculate` multiplies by 1.5 in floating point, which is exact up
--     to 2 ^ 53 / 3; for more bytes the room that it gives may differ by one, and no theorem speaks of
--     how much room there is beyond what is needed.
--   - A null pointer, a failed assertion and an access outside of a block are the outcome `crash`, an
--     exception is `throws`.
--   - `malloc` and `realloc` are the field `grants` of the heap, which says of each request whether it
--     is met, and new memory holds the byte `junk`. In the bit map the answer is an argument.
--   - `__builtin_popcount` is the parameter `popcount`; `count-view` asks that it counts ones.
--   - Clock readings, the result of `epoll_wait` and what a callback asks of the manager are inputs.
--     A callback that throws is one that asks for less, since the thread catches everything.
--   - `gTimerCount` is counted without wrap-around as `created`, and ids are that number modulo 2 ^ 64.
--   - No block has 2 ^ 31 owners.
--   - `iconv` is the parameter `Descriptor`: the bytes that it writes for a character, or a failure.
--   - A chain of the hash table is the list of its nodes, and `end_hash` is what `rehash` reads as the hash
--     of the end. Keys are any type with an equality test `beq` and a `hash`.
--   - The functions of the red-black tree are the parameter `RedBlack`: they keep the order of the nodes.
--     A pointer to a node is its key, and `made_of` says of each key and value how the creation of
--     their node ends. Keys are any type with a strict total order.
--   - What an INI file holds is a text, and `parser` has none where the file cannot be opened. `fgets`
--     takes 1023 bytes at most, `snprintf` writes 511.
--   - What `vsnprintf` prints is a parameter. Positions in a text are `int` in the source, which is exact
--     below 2 ^ 31. The letters of `tolower` and `toupper` are those of the C locale.
--   - Fuel: `kmp_from` goes on by a place or more and `remove_loop` takes out a character or more in
--     each round, so one more than the length of the text is enough; `move_chain` moves a node or
--     more in each round and `parse_from` takes a byte or more, so the length of the chain and of
--     the file is enough; `get_chars` reads a byte in each round, so one more than the write
--     position is enough; `clear_loop`, `copy_nodes`, `foreach_loop` and `size_loop` take a node in
--     each round, so the number of nodes, for `clear_loop` one more, is enough; `rounds` and `convert_chars` take a
--     byte or more in each round, so the length of the text is enough; `count_loop` halves an `int`, so 30 rounds are enough;
--     `raise_bits` reads behind the table of primes from 32 bits on, so that 33 rounds are enough.
--   - `int`s of the hash table: `prime_for_num_bits` says where the number of buckets overflows or its
--     table is left, and `create_node` where the number of nodes does. Those of `kmp_strstr` are
--     `int_of` the lengths.
--
-- Not modelled: of `ByteBuffer`, `dump`, `hash` and `operator==`; of the timer manager, the start of the
-- thread and the destructor; of the hash table, `erase`, which does not compile; of `BiMap`, the
-- copies, which go through all keys, and the order and number of its keys; of the whole repository,
-- the parts that mostly call the operating system or other libraries (threads, locks,
-- files, logs, databases, cryptography), the vendored libraries, the other configuration formats, which
-- call them, and the red-black tree of utils/src/rbtree_base.cpp, which is the one of the Linux kernel,
-- with `rbtree_clear` and `rbtree_erase_node` over it; of `Map`, `prevNode` and the steps of
-- iterators; of `String8`, the hash, which the standard library computes, the stream output,
-- `toStdString`, and writes through `operator[]` and `data`.
pub mod Prelude
pub mod Outcome
pub mod BitMap
pub mod Buffer
pub mod Timer
pub mod Hash
pub mod Ini
pub mod BiMap
pub mod CText
pub mod String8
pub mod Convert
pub mod Map
pub mod RbtreeApi
