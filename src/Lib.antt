-- ===== src/Lib.antt =====
-- EA31337-FFT: a verification library of the expert advisor's own logic.
--
-- The program is an expert advisor for a trading platform. Its entry points (include/ea.h) choose
-- strategies from a menu (include/enum.h) and register each of them, for a mask of timeframes, in the
-- class EA of the framework under include/classes; the collection under include/strategies has a
-- dispatcher of its own. On every tick the EA asks its strategies for signals, packs the answers into
-- flag words, and decides on the words; trades count what they do in statistics, against limits, for
-- periods that the class DateTime reports as started. Source paths here leave out the leading
-- directory src of the repository: include/ea.h is src/include/ea.h.
--
-- Parts, and the files that model them:
--
--   Prelude, UserError   names that all files share, tests on numbers, lists, reported errors
--   Bits                 words of 32 bits: digits, masks, flags that are set, cleared and tested
--   Timeframe            Chart.enum.h, Chart.struct.tf.h: timeframes, their index, seconds and names
--                        (Tables), their conversions (Convert), the structure ChartTf (ChartTf)
--   Signal               Trade/TradeSignal.struct.h (Entry), Trade/TradeSignal.h (Decision) and
--                        EA::GetStrategySignalEntry of EA.mqh (Collect)
--   Strategies           include/enum.h and EALibre::StrategyAddToTfs of include/ea.h (Libre),
--                        include/strategies/enum.h and manager.h (Manager), EA::StrategyAdd of EA.mqh
--                        and the magic numbers (Magic)
--   DateTime             DateTime.enum.h and DateTime.struct.h (Entry), DateTime.mqh (Periods)
--   Trade                Trade.enum.h and Trade.struct.h: TradeStates (States), TradeStats (Stats) and
--                        the parameters of trades and their limits (Params, Limits)
--   Ea                   EA.struct.h: EAState, EAProcessResult (State), EAParams (Params, Params/Props);
--                        EA::ProcessSignals of EA.mqh (Process), the loop of EA::ProcessTick over the
--                        strategies (Tick) and the whole of it (WholeTick), with trades and strategies
--                        behind interfaces
--   Stg, Casts           Strategy.struct.h and Strategy.enum.h: StgParams, and the conversions of
--                        templated getters and setters
--   Dict                 DictObject.mqh, DictBase.mqh, DictSlot.mqh, DictSlotsRef.h and
--                        DictIteratorBase.mqh in list mode (Slots), and what its operations keep
--                        (Counted, Push, Unset, Seek)
--   Manager              Trade/TradeSignalManager.h and TradeSignalManager.struct.h (Refresh), and what
--                        a refresh does (Total, Clean, Alias, Ready)
--   Price, Candle        Bar.struct.h and Bar.enum.h: BarOHLC (Bar) and its pivots (Pivots);
--                        Pattern.struct.h and Pattern.enum.h: the words of patterns (Pattern), the
--                        patterns of one to five candles (One to Five), what the bits of a word say
--                        (Words), PatternEntry (Entry), PatternBitwise (Bitwise), and how patterns relate
--                        (Order, Nested, Opposites); Price is the arithmetic of prices
--   Order                Order.struct.h and Order.enum.h: OrderParams (Params), OrderData (Data),
--                        its Get and Set (Access)
--   Task                 Task.struct.h, Action.struct.h and Condition.struct.h (Entry), and Task.mqh with
--                        the tests and the execution of Condition.mqh and Action.mqh (Process)
--   Refs                 Refs.mqh (Heap) and Refs.struct.h: Ref (Strong), WeakRef (Weak), the invariant of
--                        the counters (Counts, Local, Pointer), programs over references (Program)
--                        and what they see (View)
--   Examples             runs of the model on concrete inputs
--
-- State and effects: a structure is a record, a method that changes it returns the new record beside
-- its result, and SetUserError is an optional error in the result. A switch with a default branch is
-- a chain of tests where the program casts numbers to the enumeration, and a function by clauses where
-- it does not. Unsigned words of 32 bits keep their wrap-around; signed numbers stand as their 32-bit
-- patterns where a negative value occurs. A float of a strategy has the type F, which nothing computes
-- with. Prices are of any type with the operations that the program uses (Prices), one type for float
-- and double, with the conversion to float where the program writes it; theorems that compare prices
-- take the documented behaviour of comparisons, fmax and fmin on numbers other than NaN (IsOrdered).
-- An array of candles is a function of the index. A difference of times, which is signed, is a pair of
-- which one is 0.
--
-- References share a heap: objects and counters by their addresses, an object and its counter at
-- addresses of the same number, none of which is used twice, and the variables that are references. A
-- read through a null or freed pointer is an outcome of its own (none). Objects hold no references
-- themselves, and fewer than 2 ^ 32 variables refer to them.
--
-- The platform is a parameter: _Period, PeriodSeconds, TimeToStruct, TimeCurrent, TimeGMT and rand()
-- are arguments, and PeriodSeconds is assumed to have its documented values (IsPeriodSeconds). Whether
-- ArrayResize succeeds is an argument of Resize, GrowUp and Push of the dictionary in list mode (Dict).
-- All else is taken to have the memory that it asks for: the pushes of the signal manager, which does
-- not look at their result (pushed), the objects that the references allocate, the other arrays, and
-- the dictionary of strategies, where Set of a free key succeeds (StrategyAdd).
--
-- Fuel: the search for a free slot has as many rounds as the array has slots, and the loop of Refresh
-- one more than the slots and the used slots together; both run out in no dictionary that counts its
-- slots, which every operation keeps so. Arrays are taken to stay below 2 ^ 22 slots, where the growth
-- by a factor of 1.25 in floating point is exact.
--
-- Not modelled: order sending and the terminal, indicators and their buffers, floating-point
-- computations (the Fourier transform of the strategy, lots, stops), serialisation, graphics,
-- networking, debug output, objects that hold references, the hash table with keys, what the EA does
-- with trades, data and tasks on new periods, and the strategies themselves.
pub mod Prelude
pub mod UserError
pub mod Bits
pub mod Timeframe
pub mod Signal
pub mod Strategies
pub mod DateTime
pub mod Trade
pub mod Ea
pub mod Dict
pub mod Manager
pub mod Examples
pub mod Casts
pub mod Stg
pub mod Price
pub mod Candle
pub mod Refs
pub mod Order
pub mod Task
