-- ===== src/Lib.antt =====
-- The PFPSim core library (pfpsim/core): the simulation library of the Programmable Forwarding Plane
-- framework. A simulated device is a tree of modules (PFPObject) that hand packets and events to each
-- other through queues (MTQueue, LMTQueue). Modules tell their observers what happens: counters change,
-- packets are read, written and dropped. The debugger is such an observer (DebugObserver): it keeps a
-- picture of the simulation in a data manager (DebugDataManager), updates traces, and stops the
-- simulation at breakpoints and watchpoints; a server thread (DebuggerIPCServer) works on the same data
-- manager for a client in another process, and holds the debugger's copy of the table entries of the
-- control plane (CPDebuggerInterface).
--
-- Which file models which part:
--   Common and its children: names passed on from the libraries, Boolean tests, equality as an instance,
--     lists over the native numbers, `int` and `size_t`, lists without related entries, and chains of
--     steps that may end the run (`none` is an exception, undefined behaviour, or a step that waits; each
--     place says which).
--   KeyOrder, OrderedMap: `std::map` as an association list in key order, with the laws of its operations.
--   Double: `double`, a parameter with its operations; what IEEE arithmetic promises of order and of
--     integers is the hypothesis IsIeee. Decimal: `std::to_string` of an `int`.
--   Debugger.Breakpoint, Debugger.Watchpoint, Debugger.Packet: the classes of
--     pfpsim/core/debugger/Breakpoint.cpp, Watchpoint.cpp and DebuggerPacket.cpp.
--   Debugger.DataManager: pfpsim/core/debugger/DebugDataManager.cpp. The record has the class's fields,
--     and each method is a function on it (addBreakpoint is add_breakpoint, and so on); its mutex makes
--     each one step. Child Traces has the trace methods, Packets the reads and writes of packets
--     (updatePacket), Operations all methods as one type of steps; the other children prove.
--   Debugger.Message: the messages of pfpsim/core/debugger/DebuggerMessages.h that answer a stop.
--   Debugger.BreakpointHit: checkBreakpointHit of pfpsim/core/debugger/DebugObserver.cpp, with the pointer
--     that it keeps into the list as a position.
--   Debugger.Observer: the other handlers of that file. A notice gives the new state and what is sent out,
--     in order: trace updates and stops. During a stop the client has operations done on the data manager;
--     the client is a parameter, any function from the stop and the state to a list of operations. Child Ending
--     has the destructor.
--   Debugger.Server: pfpsim/core/debugger/DebuggerIPCServer.cpp, where a request gives the server after it,
--     the replies sent at once, and whether the handler then waits for the simulation to stop. Child
--     Handlers has the handlers and parseRequest (parse_request), Asked what each request asks of the data
--     manager, said without them. The pointer to the control plane is an option, which registerCP sets.
--   Debugger.Wire: pfpsim/core/debugger/DebuggerMessages.cpp, the messages of protobuf that are made of replies
--     and stops, by their fields; the encoding into texts is a parameter.
--   Debugger.Transport: the loop of the server's thread and what goes over the sockets, with the topics of
--     trace updates; the library of the sockets is a parameter.
--   Debugger.Starting: the start and the end of the server's thread, and the mutex at which the simulation
--     waits for the command to run.
--   Debugger.Handshake: the flags with which a stopping simulation (notifyServer, pause) and the server's
--     thread (handleRun, handleContinue, waitForStop) wait for each other, as a relation of steps. What a
--     client must not do, to continue before it has run, is a condition of its step.
--   Debugger.CpInterface: pfpsim/core/debugger/CPDebuggerInterface.cpp.
--   Queue: pfpsim/core/LMTQueue.h and MTQueue.h, with a relation for the states that processes reach.
--   PfpObject: the counters of pfpsim/core/PFPObject.cpp and the calls of the observers, those made at
--     once and those put into the queue of events. Child DataNotices has the notices of data, Tree
--     AddChildModule and attach_observer over a module and its child modules.
--   Hierarchy: the methods of the same file that go up from a module to its parents, with a module given as
--     the list of itself and its parents.
--   Configuration: pfpsim/core/ConfigurationParameters.cpp. The library of JSON values is a parameter: the
--     record Json has the calls of it, JsonLaws and Depth what it promises. Child Search has the look-ups,
--     Parents compares them with those of Hierarchy, Loading has
--     the construction of a module from its files (pfpsim/core/PFPObject.cpp).
--   ControlPlane: pfpsim/core/cp/Commands.h and Commands.cpp. Child Keys has the keys and their printing,
--     Commands the commands, the results that they build and the dispatch to a processor, Results that of
--     results. Processors are parameters, given by their handlers. Literals and Grammar have the grammar of a
--     line of commands, pfpsim/core/cp/grammar.y, on the tokens that Scanner finds in the text of a line by
--     the patterns of pfpsim/core/cp/tokens.l. Texts puts both together (pfpsim/core/cp/CommandParser.ih).
--   Startup: pfpsim/core/PFPConfig.cpp. Child CommandLine has parse_args and the start of the simulation
--     of pfpsim/core/pfp_main.cpp; getopt_long is a parameter. Child Context has pfpsim/core/PFPContext.cpp.
--   StringUtils: pfpsim/core/StringUtils.cpp.
--   Examples: tests, and the theorems at inputs that meet their hypotheses.
--
-- Bounds. An `int` is an integer; `static_cast<int>` of a size is written out for 32 bits. Identifiers of
-- traces, breakpoints and watchpoints count up by one from 0 and are taken to stay below 2^31. Sizes and
-- counters of modules are 64 bits wide and wrap around; packet identifiers become an `int` where the
-- observer makes them one. Loops are structural recursion. Two take a number of rounds: printing a number,
-- which gets one more than the number, and the loop over the watchpoints, which gets the length of the
-- list: it goes on in the list as a pause leaves it, and a list that has grown in a pause may have been
-- moved, which leaves the iterator undefined. Comparing configurations and reading options take fuel: one
-- more than the depth of the instance's value, and one more than the number of arguments, are enough. Finding
-- the tokens of a line takes one for each character, and parsing it one more than the number of its tokens.
--
-- Not modelled: output for people (VERBOSE; the printing of commands is), the sockets and the encoding
-- of messages themselves (nanomsg and protobuf, which are parameters), the code that is generated of the
-- grammar and of the patterns of tokens, which is taken to follow them, and json.hpp, which is a library
-- of others. What `DebugInfo` holds is a parameter, being up to the simulated device; so are the server's
-- conversions of texts to numbers and the control plane's do_command (the record Services).
pub mod Common
pub mod Configuration
pub mod ControlPlane
pub mod Startup
pub mod KeyOrder
pub mod OrderedMap
pub mod Double
pub mod Decimal
pub mod StringUtils
pub mod Queue
pub mod PfpObject
pub mod Hierarchy
pub mod Debugger
pub mod Examples
