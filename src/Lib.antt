-- ===== src/Lib.antt =====
-- A verification library for Hecios, the simulator of a parallel file system.
--
-- A request of a client names bytes of a file through a view (a displacement and an MPI data type). The
-- data type turns a run of bytes into file regions; the distribution of the file turns file offsets into
-- offsets of the objects on the servers; region sets collect the regions that a cache needs or writes;
-- and the caches hold pages or blocks, with the least recently used one to go first.
--
-- Which file models what:
--   RegionSet: FileRegion and FileRegionSet, of src/common/basic_types.h and file_region_set.cc. A
--     std::set is an ascending list (OrderedSet); `insert` is FileRegionSet::insert, in the two blocks
--     `merge_low` and `merge_up`; `num_bytes` and `region_span` are numBytes and regionSpan.
--   DirtyRegionSet: DirtyFileRegionSet, of src/common/dirty_file_region_set.cc, cut up the same way.
--   LruCache: the class of src/common/lru_cache.h, with one function for each method. The std::map is an
--     association list (Assoc), the list of keys is the order of use, NoSuchEntry is a result.
--   DataType: the classes of src/common/*_data_type.cc as constructors of one type, with getExtent,
--     getRepresentationByteLength and getRegionsByBytes by cases; DataType.Loops has the loops.
--   Layout: FileDistribution (src/layout/file_distribution.cc) as a record of its virtual methods, with
--     BasicDistribution and SimpleStripeDistribution (Layout.Stripe) as values of it.
--   Mapping: DataTypeLayout (Mapping.FileLayout) and DataTypeProcessor with FileView
--     (Mapping.Processor), of src/layout/data_type_layout.cc and data_type_processor.cc.
--   FilePages: FilePageUtils, of src/common/file_page_utils.cc.
--   MesiCache: LRUMesiCache, of src/common/lru_mesi_cache.h, cut up as LruCache. MesiCache.View sees one as
--     an LruCache whose values carry the state; MesiCache.Reach has the relation of its calls.
--   The disk of a server, from the top: FileSystem (src/os/file_system.cc) turns the requests on files into
--     requests for blocks, which Storage (src/os/fixed_inode_storage_layout.cc) places; BlockTranslator
--     (src/os/block_translator.cc) turns those into requests for disk addresses and counts the answers;
--     BufferCache answers what it holds; and DiskScheduler (src/os/disk_scheduler.cc) orders the rest.
--     Handlers take a state and a message to the state and what they send; a run is a list of messages.
--     FileSystem.Stalls puts the file system on the translator.
--   MultiCache: the class of src/client/cache/multi_cache.cc, which keeps up to two copies of a page, with
--     the regions of its partial pages in a RegionSet.
--   TimeoutCache: LRUTimeoutCache, of src/common/lru_timeout_cache.h, seen in TimeoutCache.Recency as an
--     LruCache whose values carry their times. The current time is an argument.
--   CacheDirectory: ClientCacheDirectory, of src/common/client_cache_directory.cc, with the layout of a
--     request on a server from Mapping and the pages from FilePages.
--   BufferCache: LRUBufferCache, of src/os/buffer_cache.cc: each handler takes the state and a message to
--     the state and the messages it sends. Its cache is an LruCache of blocks without data.
--   Filename: the class of src/common/filename.cc, over lists of character codes.
--   Prelude: Boolean tests, lists measured by native numbers, and 64-bit words. In each directory Tests
--     has runs at small inputs.
--
-- Integers: FSSize, size_t and the bit pattern of FSOffset are numbers below 2 ^ 64, and their sums,
-- differences and products wrap (Prelude.Words); FSOffset is compared as signed. The theorems on offsets
-- ask that what they add stays below 2 ^ 63 or 2 ^ 64, and say where.
--
-- Fuel: the loops of getRegionsByBytes and of distributeContiguousRegion take fuel, and `none` is its end.
-- For basic, contiguous and vector types two rounds more than the bytes asked for are enough, and for
-- distributeContiguousRegion one more than the extent. The loops over lists need none.
--
-- Parameters: the test of percentDirty against the threshold, a comparison of doubles, is an argument of
-- BufferCache.handle_write. Of the simulation kernel, the container cQueue is the interface
-- DiskScheduler.Queue, with its promises in DiskScheduler.Extract.IsQueue, and the macro FSM_Switch an
-- argument of FileSystem.process_io_message, with its promises in FileSystem.Fsm.IsFsm; the tests
-- instantiate both. The virtual methods of a disk scheduler are the record DiskScheduler.Scheduler, and
-- getAddresses is an argument of BlockTranslator.handle_message. The size of a file's object on a server,
-- which FileBuilder knows, is an argument of CacheDirectory.get_clients_needing_invalidate.
--
-- Not modelled: the event simulation on OMNeT++, its messages and modules, the MPI and trace front ends,
-- printing, and DataType::resize.
pub mod Prelude
pub mod OrderedSet
pub mod RegionSet
pub mod DirtyRegionSet
pub mod Assoc
pub mod LruCache
pub mod DataType
pub mod Layout
pub mod Mapping
pub mod FilePages
pub mod BufferCache
pub mod Filename
pub mod DiskScheduler
pub mod MesiCache
pub mod Storage
pub mod BlockTranslator
pub mod FileSystem
pub mod CacheDirectory
pub mod MultiCache
pub mod TimeoutCache
