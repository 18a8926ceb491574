-- ===== src/Lib.antt =====
-- APRIL-ANN: a toolkit for artificial neural networks and pattern recognition, written in C++ and
-- driven from Lua. This library models the parts of its C++ code that everything else stands on, and
-- proves what makes them correct.
--
-- The program's parts. `packages/basics/util/c_src` holds containers and routines.
-- `packages/basics/matrix/c_src/matrix.h` lays matrices of any number of dimensions out in blocks of
-- memory, which sub-matrices share. `packages/basics/dataset/c_src` presents a matrix, or other data
-- sets, as a numbered set of patterns: a data set calls getPattern and putPattern of the data sets that
-- it is made of, down to one that owns its values or reads them from a matrix. The networks of
-- `packages/ann` are trained on patterns that they draw from data sets.
--
-- Which file models what:
--   Prelude             tests and lists under native numbers, blocks of memory as functions from
--                       positions (update is `a[i] = v`), signed integers, loops on fuel; Bits: masks
--                       by a power of two less one
--   Util/Vector         util/c_src/vector.h; Contents: the list of the used elements
--   Util/MinHeap        util/c_src/min_heap.h; Order: the invariant; Sink, Rise, Remove: the
--                       operations that move values down, move them up, or take them out
--   Util/MfSet          util/c_src/mfset.h, on Util/Vector; Forest: the invariant; Find, Grow,
--                       Merge
--   Util/Binarizer      util/c_src/binarizer.h and binarizer.cc; Digits: the tables and the digits;
--                       Places, Words: one number; Rows: code_vector_int32
--   Util/Fifo           util/c_src/fifo.h; Chain: linked nodes; Queue: the list of the values;
--                       Drop: drop_by_value
--   Util/HashKey        util/c_src/aux_hash_table.h: the hash functions, and the smallest power of two;
--                       Loops: the functions agree; Inverse: odd factors modulo a power of two
--   Util/HashTable      util/c_src/hash_table.h: chained buckets; Bucket: one chain; Valid: the
--                       invariant; Load: when the table grows; Put, Move, Resize, Insert, Erase, Copy,
--                       DeleteIf: operations; Walk, Iterate: the nodes and the iterators
--   Util/OpenHash       util/c_src/open_addressing_hash.h: pairs in the buckets, found by probing;
--                       Probe: an odd step reaches every bucket; Table: the invariant; Slots, Store,
--                       Rewrite, Move, Insert, Fresh: insertion and growth; Walk: the iterators
--   Util/Qsort          util/c_src/qsort.h and swap.h; Permuted: swaps inside a range; Insertion, Scan,
--                       Partition: the pieces; Sort, Select: the two routines
--   Util/MaxiphobicHeap util/c_src/maxiphobic_minheap.h; Heap: the invariant; Rounds: how long the
--                       loop of merge runs; Arrange, Merge: merge; Operations: its clients; Visit: foreach
--   Util/CeilingPower   util/c_src/ceiling_power_of_two.cc; Loop: when its loop ends
--   Util/Context        util/c_src/context.h; Fill: its loops; Window: while elements are inserted; End:
--                       after the end of the input
--   Util/StringQueue    util/c_src/stringQueue.h and stringQueue.cc; Last: its last node; Escape: the
--                       escaped form of a string; Contents: what printing adds; Bounds: what fits
--                       into a node; Advance: what is taken off, and exportBuffer
--   Util/BinarySearch   util/c_src/binary_search.h; Found: what the searches find
--   Matrix              matrix/c_src/matrix.h; Rank: row-major and column-major numbers of
--                       coordinates; Layout: strides; Simple: isSimple; Coords: nextCoordVectorRowOrder
--                       and its column form; Iterate: the iterators; Copy: copies; SubMatrix, Transpose,
--                       Columns: getCol, putCol and putSubCol
--   DataSet             dataset/c_src/dataset.h: the abstract class as a record of operations; IsTable
--                       states what a client may rely on
--   DataSet/Union       UnionDataSet, on Search (its search) and Offsets (its table of sums)
--   DataSet/Join        JoinDataSet, on Offsets and Gather (a vector filled piece by piece)
--   DataSet/Index       IndexDataSet (reading), on Offsets and Gather
--   DataSet/Context     ContextualizerDataSet (reading), on Gather
--   DataSet/Subset      SubDataSet, SplitDataSet, IdentityDataSet, IndexFilterDataSet
--   DataSet/Accumulate  AccumulateDataSet
--   DataSet/Bits        BitDataSet; Byte: one bit of a byte; Packed: patterns
--   DataSet/Window      MatrixDataSet (reading); Repeat: loops that fill a vector from the front;
--                       Shown: what a window shows; Steps: where the window of an index stands;
--                       Correct: getPattern
--
-- State is passed on: an operation of a C++ object is a function from the record of the object's fields
-- to a new record, beside its result. A block of memory that several objects share is an argument of
-- its own. A call that ends the process is `none`. Virtual functions are fields of a record.
--
-- Numbers. An `int` that counts or indexes is a number, and one that may be negative is an integer of
-- Prelude/Int; sizes and products of sizes are taken to stay below 2^31, where the code does not check
-- them. Binarizer and CeilingPower keep the wrap-around at 2^16, 2^32 and 2^64, since their results
-- depend on it.
--
-- Loops whose end is not visible take fuel, and `none` says that it ran out. The theorems state that it
-- does not: min_heap sinks and rises with `the_size + 1`, more than the positions on a path;
-- mfset.find takes the bound on the depth of the forest that the invariant keeps; a walk over the
-- coordinates of a matrix takes `total_size + 1`, one more than the coordinates; the search of
-- UnionDataSet takes the number of data sets, which the distance of its two ends never exceeds, and
-- binary_search takes one more than that distance, since it can end on an empty interval. The loop of
-- fifo.drop_by_value takes `the_size + 1`, one more than the nodes. The search of a power of two takes
-- one more than its argument, since doubling passes any number in as many rounds. A probe of the
-- open-addressing table takes as many rounds as there are buckets: its step is odd and their number a
-- power of two, so that it meets each once. An iterator of a table looks for its next element in one
-- more round than there are buckets. Sort and Selection take one more than the elements of their range,
-- which each round shrinks, and the scans of partition one more than the highest position. The loop of
-- merge in maxiphobic_minheap takes the nodes of both heaps, and needs only a logarithm of them: each
-- round leaves less than two thirds. ceilingPowerOfTwo takes 32 rounds, after which a power of two has
-- left its 32 bits.
--
-- Not modelled: arithmetic on floating-point numbers, and with it the BLAS and CUDA code of
-- `packages/basics/math` and the numeric work of `packages/ann`; reference counts and destructors;
-- files and streams; the Lua bindings. What the values of patterns and matrices are is a parameter of
-- the model. So are the hash function of a key, its equality, the load at which a table grows (a
-- quotient of floating-point numbers in the code) and the initial value of a data type. PartQ of
-- qsort.h, the hash tables with time stamps and the lists are left for later. The random numbers of
-- `packages/basics/random` and the Lua interpreter in `lua` are other projects' code.
pub mod DataSet
pub mod Matrix
pub mod Prelude
pub mod Util
