-- ===== src/Lib.antt =====
-- mes-copy: the production core of its backend, its machine servers, commissioning tool and
-- frontend logic, modelled and verified.
--
-- The repository is a manufacturing execution system (MES). Machines offer their state and a job
-- interface over OPC UA; the MES answers their requests, and a web frontend shows and edits what
-- the MES knows. This library models the services of the backend below src/ that produce an order,
-- the machine servers below test-machines/, the tool for commissioning machines and the logic of
-- the frontend.
--
-- * src/orders/routing.service.ts, src/orders/orders.service.ts, src/carriers/carriers.service.ts,
--   src/execution-steps/execution-steps.service.ts and src/opcua/connection-recovery.service.ts, on
--   the entities beside them: Mes.antt holds the rows and the tables as the record `Database`;
--   Mes/Tables `find`, `save` and `delete`; Mes/Execution `start`, `complete` and `fail`;
--   Mes/Stations `resolveStationRequest`; Mes/Completion `completeStationStep` and
--   `failStationStep`; Mes/Routes `replaceRoute` and the default route; Mes/Orders
--   `createExternalProductionOrder` and `create`; Mes/Changes the changes of orders and carriers by
--   hand; Mes/Recovery `releaseCarriersWithoutActiveOrder` and `recoverStations`; Mes/Reconnect the
--   handlers that run these and their alarms; Mes/Calls all changes of the database in any order. A
--   transaction either throws, and the database is as it was, or returns the new one; the order in
--   which transactions run is that of the calls. The unique indices of the tables are hypotheses
--   where a theorem needs them, and the uuids of new rows are arguments. A call of the database
--   does not fail.
-- * src/opcua/stmes-handshake.service.ts, the handshake with a station: Handshake.antt holds its set
--   of stations that are being answered, its journal and what it writes to the stations;
--   Handshake/Dispatch `dispatch` and Handshake/Calls `acknowledge` and `completeProcess`, which
--   call Mes. A call is a task that waits for an awaited call, its `Stage`, and goes on by a
--   `resumes` when that has come back; a run is any list of new calls and resumptions, so calls
--   interleave at every `await`. What an awaited call of the machine adapter or the database does,
--   its failure included, is an argument, and one that fails has changed nothing; a transaction of
--   the router takes effect as a whole. Handshake/Counts is what the properties count along a run.
-- * src/orders/order-production-log.service.ts, the export of the log: Csv.antt holds
--   `encodeCsvCell` and `buildProductionRunsCsv`, of given rows, and a reader after RFC 4180.
-- * test-machines/alternate-opcua-machine/server.js, the single-station machine: Press.antt holds
--   `state` as the record `Press` and `initial`; Press/Variables the variables of
--   `addAddressSpace`; Press/Cycle `finishCycle`, `startAcceptedCycle`, `rejectAssignment`,
--   `resetMachine` and the interval functions; Press/Mes `findNextAssignment`,
--   `requestAssignment` and `pollMesAssignments`; Press/Run the event loop: an `Event` is one call
--   that the loop can make next, and a run is any list of events.
-- * test-machines/alternate-opcua-machine/server-multistation.js, the multi-station machine:
--   Cell.antt holds `stationDefinitions`, `createStationState` and the maps beside them;
--   Cell/Cycle the functions of one station; Cell/Mes `findAssignments`, `requestAssignment` and
--   `pollMesAssignments`, as a poll that waits for an answer while other events come between;
--   Cell/Commands `applyMachineControl` and `simulateControlAndJobs`; Cell/Variables
--   `addStationAddressSpace`; Cell/Run the event loop. It shares the types of a job with Press.
-- * test-machines/opcua-simulator/server.js, the demo production line: Line.antt holds
--   its state, with the carrier objects as a list whose places the stations, queues, timers and
--   plans share; Line/Start `stationConfigs`, `createStationState` and the slots; Line/Inventory
--   `observeCarrier` and `registerCarrierInInventory`; Line/Handling the changes of one station;
--   Line/Queue `requestMesData` and `processNextInQueue`; Line/Plc `completeStationCycle` and
--   `simulatePlc`; Line/Fetch `fetchCarriersFromMes`; Line/Plans `releaseCarrier`,
--   `scheduleNewCarrier` and `refreshCarriers`; Line/Nodes `addStation` and `addCarrierInventory`;
--   Line/Run the event loop. Its timers that nothing cancels are a list.
-- * frontend/src/utils/machineProfileConfig.js, the draft of a machine profile: Profile.antt holds
--   the stations and `sortedRoutingPreview`; Profile/Validation `validateProfileDraft`, with the
--   number of stations and one more as fuel for its `while` loop; Profile/Setup
--   `stationSetupState` and `profileSetupSummary`.
-- * tools/opcua-commissioning.js, the tool for commissioning machines: Scan.antt holds
--   `scanAddressSpace`. Its fuel is the limit on the nodes and two more, since the queue gets a
--   node only when the result does. The rest of the tool is not modelled.
-- * Api.antt holds `getMesApiToken` and `mesGet` of the two machine servers of
--   test-machines/alternate-opcua-machine, with the number of calls as fuel; the other models take
--   what these calls return as an argument.
-- * OpcUa.antt holds the variables that the machine servers register (`addVariable`,
--   `addStateVariable`).
-- * Base.antt holds shared notation, lists, texts and decimal numbers.
--
-- Timers: a `setTimeout` that can be cancelled is an optional delay in the state, the others are
-- counted; that a timer runs out is an event, possible whenever it is set, so runs include every
-- order that real delays allow. Numbers of the program that are never negative are natural
-- numbers; pressures and other decimals are kept in thousandths; JavaScript's rounding of doubles
-- is not modelled. The decimal printer `show` takes the successor of its number as fuel, which is
-- more than the number's digits.
--
-- Not modelled: the OPC UA library, the HTTP calls (what they return is an argument), console
-- output, process signals, React components, and the other services of the backend
-- (dashboards, machine profiles, materials, the OPC UA session, the synchronisation of the carrier
-- inventory).
pub mod Base
pub mod OpcUa
pub mod Press
pub mod Cell
pub mod Line
pub mod Profile
pub mod Scan
pub mod Api
pub mod Mes
pub mod Csv
pub mod Handshake
