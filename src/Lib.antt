-- ===== src/Lib.antt =====
-- BHCppHPToolKit is a header-only C++ library of pooled containers, of the memory pools they live
-- in and of the locks they share. The models below are translated from its headers.
--
-- Parts and how they interact:
-- * Foundations/MathBits.hpp is MathBits, with one function per function of the header. Euclid's
--   loop in `gcd` recurs on the accessibility of its second argument. MathBits/Divisors,
--   MathBits/Rounding, MathBits/Powers and MathBits/ZeroBit hold the theorems.
-- * Memory/BlockMemPool.hpp is BlockPool. BlockPool/Sizes has the size arithmetic of the pool,
--   which calls MathBits; BlockPool/Segment has `Segment` with its bitmap of free slots,
--   `tryAcquireSlot` and `releaseSlot`, each under the lock of the segment. BlockPool/Buckets
--   has the buckets of segments, `allocate`, `clear` and the reference counts of block handles; a
--   segment is named by its address, and the bytes of the blocks are not modelled.
-- * HPContainer/RWRingQueue.hpp is RingQueue: every method is one step on the record `Queue`,
--   because it holds the lock of the queue from its first line to its last. Storage comes from
--   the pool as `byte_capacity` of BlockPool/Sizes says, so a queue may have more slots than were
--   asked for. `ensureCapacity` doubles with a fuel of 64, which reaches every size up to 2^63.
--   RingQueue/Window and RingQueue/Slots describe the ring, RingQueue/Refine, RingQueue/Pop,
--   RingQueue/Batch and RingQueue/Storage hold the theorems.
-- * HPContainer/PooledHashMap.hpp is HashMap: `Entry` and the record `HashMap`, both probe loops
--   (`find_existing_index`, `find_slot_for_insert`), insertion, erasure, `rehash`, copies and
--   iterators. Probe loops run `_bucketCount` rounds, as in the code. `Hash` and `KeyEqual` are the
--   interface HashMap/KeyOps; the test of the load factor in `float` is a parameter. HashMap/Configured
--   has both as fields, which copies and moves hand on. HashMap/Replace writes a value. HashMap/Table,
--   HashMap/Probe, HashMap/Slot, HashMap/Count, HashMap/Insert, HashMap/Place and HashMap/Rehash
--   build up to HashMap/Refine, HashMap/Update, HashMap/Put, HashMap/Limits and HashMap/Iterate. A
--   map runs on one thread; blocks of the pool are not shared with other threads in the model.
-- * MultiThreadAndMutex/BHSync.hpp is Sync: Sync/Spin has `SmartLock` and Sync/ReadWrite has
--   `RWSmartLock`, each as a step relation in which threads take turns by one atomic operation;
--   Sync/Recursive has `RecursiveSmartLock`, where a step is one access to `owner` or `flag`, taken to
--   happen one after the other, and Sync/Recursive/Exclusion its invariant. The containers hold these
--   locks, so a locked method is one step in their models. How long a thread spins, yields and sleeps
--   is left out. Sync/Semaphore has `AtomicSemaphore` as a step relation. Sync/Groups has the calls of
--   `BHGCDController` that queue tasks and end group tasks, with its locks as flags; the loop of its
--   workers is not modelled, because it reads a task after it has popped it.
-- * HPContainer/SegVector.hpp is SegVector, of which only the index arithmetic is modelled: the shift,
--   with a fuel of 63 that reaches every size up to 2^63, the mask, and the place of an index.
-- * Memory/SegmentedObjectPool.hpp is ObjectPool: a slot is named by its block and its index in it;
--   the growth of the segment size in `double` is a parameter. ObjectPool/Shared has the counted
--   handles of `PooledSharedPtr` on a heap of counts. ObjectPool/Laws and ObjectPool/Shared/Counts
--   hold the theorems.
-- * HPContainer/PooledVector.hpp is Vector: a block of cells that are raw or hold a value, and a size.
--   Vector/Cells describes the loops, Vector/Grow the growth, Vector/Refine and Vector/Emplace the
--   edits, each against a list. A method returns an iterator as its index. Element constructors
--   do not throw, and moving is copying.
-- * HPContainer/PooledList.hpp is LinkedList: `PooledList` on an explicit heap of nodes, in which a
--   list is a chain of addresses (LinkedList/Chain, LinkedList/Links); LinkedList/Walk has `nodeAt`
--   and the loops, LinkedList/Edit, LinkedList/Insert and LinkedList/Erase the edits. The addresses
--   that the pool gives are arguments, fresh ones in the theorems. The loops over the nodes take
--   the size plus one as fuel, which ends every chain. LinkedList/Cached is `PooledHashList`, the
--   same list with its index cache, in the order in which the cache is iterated.
-- * HPContainer/PooledLinkedHashList.hpp is LinkedHashList, over LinkedList and the table of HashMap.
--   `_index[key]` with a reference to a key of `_index` is undefined when the table rehashes.
--   LinkedHashList/Index looks at the index as a finite map, LinkedHashList/Relocate has `touch`.
-- * HPContainer/PooledMap.hpp is TreeMap: a red-black tree on an explicit heap of nodes, where a node is
--   named by its address and the pool's fresh address is an argument. TreeMap/Search has the walks
--   down, TreeMap/Erase `erase` and TreeMap/Traverse `for_each` and `clear`; the mirrored branches of
--   the rotations and of the loops are one definition with the side as an argument. Walks, loops and
--   recursions take the size plus one as fuel, which is more than the tree is deep. TreeMap/Shape and
--   TreeMap/Focus say which heap holds which tree; TreeMap/Rotate, TreeMap/Turns, TreeMap/FixRound
--   and TreeMap/FixInsert follow the writes, TreeMap/Rebalance, TreeMap/Balance and TreeMap/Inorder
--   describe their outcome; TreeMap/Siblings, TreeMap/Repair, TreeMap/Stages, TreeMap/StageCases,
--   TreeMap/EraseRound and TreeMap/FixErase do the same for `fix_erase`; TreeMap/Sorted,
--   TreeMap/Seek, TreeMap/Insert, TreeMap/Reads and TreeMap/RoundTrip compare the map with a sorted
--   list; TreeMap/Visit and TreeMap/Clear have the traversals, and TreeMap/Unlink, TreeMap/Least,
--   TreeMap/Lift, TreeMap/EraseNode, TreeMap/EraseInner, TreeMap/Gap and TreeMap/EraseMap lead
--   through the branches of `erase`.
-- * Not modelled: the platform headers, which call the operating system.
--
-- Conventions: `std::size_t` and `uint64_t` values are natural numbers, with `% 2 ^ 64` written
-- where the code adds, multiplies or shifts; counts of elements that the memory bounds, as the sizes
-- of vectors and lists, are written without it. A method that can throw, or whose behaviour C++ leaves
-- undefined, returns `Run` (Base/Run): a value or a fault. A loop without a bound of its own takes
-- fuel, and running out of fuel is a fault too, so a theorem that a method returns covers its
-- termination.
pub mod Base
pub mod MathBits
pub mod BlockPool
pub mod RingQueue
pub mod HashMap
pub mod LinkedHashList
pub mod LinkedList
pub mod ObjectPool
pub mod SegVector
pub mod Sync
pub mod TreeMap
pub mod Vector
