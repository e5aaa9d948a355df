-- ===== src/Lib.antt =====
-- Live Transport Network Monitor: a client of a service of passenger events and a server of quiet
-- routes, which talk STOMP 1.2 over Websocket connections.
--
-- The parts and how they interact. A message of a Websocket connection is a STOMP frame as text. The
-- STOMP client turns its user's calls into frames and frames into its user's callbacks; the STOMP
-- server does the same for each of its connections, and keeps which of them have connected. The
-- monitor is the user of both: it counts the passengers of each station of the transport network by
-- the events that the client reports, and answers the requests that the server reports.
--
-- - Base: the shared helpers: lists and text over native numbers, maps as association lists,
--   equality as an instance argument, integers.
-- - Stomp (inc/network-monitor/StompFrame.h, src/StompFrame.cpp): the commands, headers and error
--   codes with their names (`ToString`, `ToCommand`, `ToHeader`), `StoI`, and in Stomp.Frame the
--   class `StompFrame`: `ParseFrame`, `ValidateFrame`, and the constructors from text and from
--   parts. A position in the text is the text that is left. `Outcome` says how a call ends.
-- - Server (inc/network-monitor/StompServer.h, src/StompServer.cpp): the class `StompServer`. A
--   method or a handler takes the members and gives them back, with the calls that it makes on the
--   Websocket layer and the callbacks that it posts, in order.
-- - Client (inc/network-monitor/StompClient.h, src/StompClient.cpp): the class `StompClient`, in
--   the same way.
-- - Handshake: a client and a server that exchange texts.
-- - Network (inc/network-monitor/TransportNetwork.h, src/TransportNetwork.cpp): the class
--   `TransportNetwork`. A pointer to a station's node is the station's id, since nodes are never
--   replaced; routes and edges have addresses, by which pointers to them are compared. Counts are
--   integers, travel times are numbers below 2 ^ 32. Network.Stops and Network.Paths are the
--   search for a path of the internal `GetFastestTravelRoute`, Network.Plans the public one with the
--   steps of a route, Network.Alternatives is `GetFastestTravelRoutes`, Network.Quiet
--   `GetQuietTravelRoute` with `GetPathCrowding`, and Network.Layout is `FromJson` with the JSON
--   conversions.
-- - Monitor (inc/network-monitor/NetworkMonitor.h, src/NetworkMonitor.cpp): the event handlers of
--   the class `NetworkMonitor`, and `SetNetworkCrowding`.
-- - Tests: the theorems at concrete inputs.
--
-- Fuel: the loop of `ParseFrame` over the header lines runs on the length of the text and one more,
-- and each line takes at least a byte; a number is written in decimal on fuel one more than itself,
-- and each digit divides by ten. The search for a path runs on `search_fuel`: each stop that it takes
-- from the queue was put there when a distance fell, and there are at most 2 ^ 32 distances for each
-- edge; it is proved to end within it. The way back from station B runs on one step more than there
-- are previous stops, the search for more paths on the greatest number of paths, and the choice among
-- the candidates on one step more than there are candidates. All other loops are structural.
--
-- Parameters: `Environment` has the value of a variable that `ValidateFrame` reads before it is set,
-- and the order in which a hash map of headers is iterated, of which the theorems ask that each entry
-- comes once; `Std` has the priority queues, the order in which the map of distances is iterated
-- and the sort, of which `IsStd` and `IsPathQueue` state what the standard library promises; the
-- products of a time and of a crowding with a percentage are the functions `slowed` and `quieter`;
-- `JsonLibrary` has the calls of the JSON library on values of any type, of which `IsJson` states what
-- it promises of objects, texts, numbers and arrays; `Library` has what the monitor's handlers take:
-- the calls of the JSON library with `parse` and `dump`, `Std`, and what the configuration says of
-- quiet routes. The ids that the UUID generator gives are arguments.
--
-- Not modelled: copy and move construction and assignment of `StompFrame`, whose headers and
-- body are views into its text and here copies of the bytes; `Configure` and `Run` of the
-- monitor, the Websocket classes (inc/network-monitor/WebsocketClient.h and WebsocketServer.h),
-- downloads (src/FileDownloader.cpp), and the program's entry (src/main.cpp). Logging changes no
-- state and is left out.
pub mod Base
pub mod Stomp
pub mod Server
pub mod Network
pub mod Client
pub mod Handshake
pub mod Monitor
pub mod Tests
