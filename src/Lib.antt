-- ===== src/Lib.antt =====
-- Verification of parts of omniNotify, a CORBA notification service in C++.
--
-- A channel takes events from suppliers and hands them to consumers. Filters hold constraints,
-- texts such as `$.type_name == 'alarm' and not exist $.x`. A constraint is parsed to a tree
-- (lib/RDIConstraint.cc, driven by lib/yacc.y), the tree generates a sequence of ops for a stack
-- machine (lib/RDIOpSeq.cc, tables in lib/RDIEval.cc), and the machine (lib/RDIRVM.cc) runs them
-- on each event. The events of a channel stand in one global queue
-- (lib/RDIEventQueue.cc) from which each thread reads them in order and a collector removes them.
--
-- Files:
--   Common       numbers, machine words, lists, signed integers, and Option as the result of code
--                that may fail an assertion or leave an array: none is the failure.
--   OpSeq        RDI_OpSeq and RDI_Op: Codes and Tables hold the enumerations and the tables,
--                Stack check_pre and model_effect, Seq append and the methods *_required, Jumps
--                finalize. Fits, Safety, Required and the children of Jumps hold proofs.
--   Constraint   RDI_Constraint: the tree and its Gen* functions are in Constraint, Component,
--                Names and Parts build a component (NewComp, add_*, comp_done), Build the other
--                nodes. Typing says which trees the parser builds. Rules, Demands, Shapes, Ops,
--                Grown, Built, Parsed, Safety, Compile and Consts hold proofs.
--   Rvm          RDI_RVM and RDI_RTVal (lib/RDIRVM.cc, lib/RDIDynamicEval.cc): Value the values, Env
--                what is a parameter, and conversions, Arith _eval_arithop, Machine, Ops, Compare,
--                Parts and Contain the ops, Step the switch and the loop of eval. Typing says
--                which values a static type allows, Program which sequences are programs. Simple,
--                Opens, Numbers and Safety hold proofs.
--   EventQueue   RDI_EventQueue; Order, Sweep, Reader and Handed hold proofs about one operation,
--                Reachable the operations in any order as a step relation.
--   NotifQueue   RDINotifQueue and RDIPriorityQueue, the queue of one consumer's proxy
--                (lib/RDINotifQueue.cc); Fifo holds proofs.
--   Hash         RDI_Hash (include/RDIHash.h), the tables of the channel and the filters: Runs the
--                operations in any order and the map they are compared with, Cursor
--                the walk over all pairs, Masks the expression of pseudo_hash on the masks and the
--                loop of the constructor with its wrap-around. Home, Nodes, Refine, Splits, Updates,
--                Counts and Powers hold proofs.
--   TimeWrappers RDI_TimeT (include/RDITimeWrappers.h), Utc RDI_UtcT; Trips holds proofs.
--
-- State and failure: an op sequence is the list of its ops, last first, with the stack of static
-- types, top first; an index out of the arrays (10 types, 2048 ops) and each RDI_Assert is none.
-- An error message that the parser reports is a value, `failed` or `rejected`, apart from none.
-- The machine's stack is a list, top first, of values; an exception or a trap that leaves eval is
-- the outcome `escapes`. A float or a double is held by its bit pattern. Strings are lists of character codes.
--
-- Fuel: the decimal form of a label number takes one round more than the number, which is more
-- than its digits; the searches of finalize take as many rounds as there are ops left; the loop of
-- eval takes as many rounds as there are ops, which is enough where jumps go forward; simplify takes
-- one round more than Anys are nested in the value; the constructor of a hash table doubles its
-- size in at most as many rounds as the size that is asked for. The sizes of a hash table are not
-- bounded in Hash; those of the source are unsigned ints, and past 2 ^ 31 buckets its loops do not
-- end or its sizes wrap around. All other functions are by structural recursion.
--
-- Parameters: the comparison of names without case (strcasecmp) and the C library's conversions of
-- digits (strtol, strtoull), each as a value with the number of characters read, and the default
-- priority of CosNotification; no theorem assumes anything about them. The hash and the rank function
-- of a table, where Hash.IsKey says that only equal keys have the rank 0. For the machine: the
-- arithmetic of doubles, the DynAny objects and TypeCodes of the ORB, and the event with its lookups
-- (include/RDIEvent.h). Rvm.Typing.IsSound names what is relied on: an Any can be taken out of a
-- DynAny of type Any and is nested less deeply, and an event holds no literal of a constraint.
--
-- Not modelled: the CORBA stubs and wrappers, threads and locks (an operation of the event queue
-- is one step), the generated lexer and parser tables, debugging output, memory ownership, the
-- filter and channel objects, proxies, QoS properties, stop watches, and the lists and bitmaps.
pub mod Common
pub mod Constraint
pub mod EventQueue
pub mod Hash
pub mod NotifQueue
pub mod OpSeq
pub mod Rvm
pub mod TimeWrappers
