-- ===== src/Lib.antt =====
-- UAVLink-Edge (DroneBridge): the program on a drone's companion computer. It authenticates the
-- drone with a router over TCP, keeps the session alive, and carries MAVLink between the PX4
-- autopilot, which it reaches over Ethernet or one of two serial ports, and the server.
--
-- Common models no code: Boolean tests on numbers, lists measured by them, and names passed on.
--
-- Wire models auth/protocol.go, with the limit of auth/vehicletype.go. Bytes has the byte slices and
-- the little-endian writes, Codes the message types, Requests the request structs with
-- serialize_auth_init and the rest for SerializeAuthInit and the rest, Replies and KeyReplies the
-- reply structs with parse_auth_ack and the rest for ParseAuthAck and the rest. A Go string is its
-- bytes. Cursor has the reads that the parsers make: the cursor is data[offset:], every length test
-- of the source is a test on its length, and an index or a slice out of range is the result
-- `panic`. The text of an error is a constructor of ParseError. Formats states what the comments of
-- the file document, as the router would write it; AuthAcks, SessionAcks, SetupAcks, VpnAcks,
-- KeyAcks, StatusAcks and Challenges judge the parsers by it, Safety looks for panics, and
-- RequestReads and RegisterReads read the drone's packets back; Acks and RoundTrips collect their
-- results. A string of 65536 bytes or more does
-- not survive the source's uint16 length, so the round trips bound the lengths.
--
-- Link models forwarder/px4_link.go. Step has stepLink, the choice of the active link; Phase has
-- nextLinkPhase and advanceDeadline; Arbiter has px4Arbiter with identify, register, unregister,
-- noteHeartbeat, observe, evaluate, sendHeartbeat (the channel it writes to), write and the reset by
-- startPX4LinkSupervisor. Scan has frameHasPX4Heartbeat with mavlinkCRC, and Setup configurePX4Links
-- and uartBaud. A time is the number of nanoseconds since Go's zero time, for which IsZero
-- holds; clocks do not run backwards past it, and durations are not negative (Setup has what a
-- timeout that wraps around is). The loop of advanceDeadline takes fuel, one round for every
-- nanosecond between the deadline and now, and one more: the period is positive, so they suffice.
-- The goroutines are lists of events in any order, since every method holds the mutex. A gomavlib
-- channel is a parameter, a type with decidable equality, and so is the configuration of its
-- endpoint.
--
-- Forward models forwarder/forwarder.go. History has seqHist, Stats the packet and message counters
-- with the packet maps of metrics/metrics.go, and Uplink what receiveAndForward does with a frame,
-- cut where the handler tests a condition, with forwardGpsRawToServer. Counters wrap around at 64
-- bits. Uplink calls the arbiter of Link and the other two; what the other goroutines hold (health,
-- configuration, VPN, the result of a write) is an argument. Downlink has what receiveFromServer does
-- with a frame, over the same Forwarder and the arbiter's write. Nodes has the three outgoing nodes
-- with New, NewWithVPN, initCameraSender (forwarder/mavlink_generated.go), initCompanionSender
-- (forwarder/companion_status.go) and what rebuildSender does to them: each NewNode and DialUDP has a
-- number, the tick, by which NodeOutcomes says how it goes, and lists keep the nodes that were created
-- and closed. Monitor has monitorIPChange with getCurrentIP, checkPhysicalEgressChange, RebindUplink
-- and the callbacks of SetAuthClient, as events in any order; a check reads the egress as Egress has
-- it. Two checks or rebinds in the middle of each other are not covered, and calls of ForceReconnect
-- are counted. Keepalive has the ticks of sendMavlinkKeepAlive, with forwarder/session_token.go and
-- the payloads of mavlink_custom.
--
-- Mode models px4mode/mode.go: CustomMode, Decode, FromHeartbeat, FromCurrentMode, FromCustomMode,
-- namePX4, nameQGC and ResolveSetMode. The digits that fmt prints and the cleaning of a text by the
-- strings package are parameters.
--
-- Metrics models the status, the session fields and the recent logs of metrics/metrics.go.
--
-- Session models auth/client.go and auth/client_apikey.go, with ComputeHMAC of auth/hmac.go. World
-- has the fields of Client, what the metrics show, and lists of the connections opened and closed and
-- of the packets written. Outside is everything that the client does not decide: the clock, the
-- results of dialling, reading and writing, the files and the crypto packages. Every interaction has
-- a number, the tick, by which Outside is asked, so the theorems hold for every behaviour of the
-- network and the server. Calls has calls that return, fail or panic. Status has markConnected,
-- markDisconnected, IsAuthenticated and the backoff; Handshake authenticate, requestSession and
-- reconnectTCP; Refresh sendRefresh, handleRefreshFailure and the body of keepaliveLoop; Recovery
-- Start, Stop, Send, Register and the recoveries; Keys the API keys and the VPN request; Setup
-- NewClient and the getters. Run runs the methods in any order, one at a time: what two goroutines
-- may do in the middle of each other's methods is not covered, and Register, which is a mode of the
-- program of its own, is no step of a run. Calls.Keeps, Panics and Reaches have one rule for each way
-- to build a call, for an invariant, for the panics and for the state of the server. No loop of these
-- files needs fuel: keepaliveLoop is a step that runs repeat.
--
-- Egress models network/egress.go over the status file as encoding/json decodes it: CloudReady,
-- PhysicalEgress and WaitForCloudEgress. The wait takes fuel, one for each round; a round sleeps for
-- 2 seconds, so the time that may pass bounds the rounds.
--
-- Config models config/config.go: the defaults of Load, Validate and normalizeCameraConfig, from the
-- decoded YAML file on and without the fields of type float64.
--
-- Web models the parameters of web/server.go: MAVLinkBridge with HandleHeartbeat, HandleParamValue,
-- processParamValues, RequestParameterList, SetParameter and waitForParamResponse, as events in any
-- order. float64, with the conversions from and to bits, and strings.TrimSpace are parameters, the
-- latter with what it does to bytes as a hypothesis.
--
-- Vpn models the manager of vpn/manager.go, and Startup the authentication of main.go with the tunnel
-- and the rebinding that follow it, and watchCloudAndRebind beside it: it uses the manager of Vpn, the
-- egress of Egress and RebindUplink of Forward.Monitor. The retries take the rounds that the loop may
-- run, one for each call of Start that is still made. The ticks of watchCloudAndRebind that come before
-- a call of Start or before the rebinding are arguments.
--
-- Camera models the watchdog of camera/streamer_watchdog.go: its checks, the restarts and the exits of
-- processes, as events in any order, and two restarts that overlap, which nothing in the code
-- prevents. What a check reads of the statistics, which are of type float64, is whether they are stale
-- or low.
--
-- Witness runs the definitions at concrete inputs.
--
-- Not modelled: sockets, files, processes, HTTP handlers, logging, goroutine scheduling, the vendored
-- libraries, floating-point numbers, and the Python and shell parts of the repository. Of the rest of
-- the Go code the detection and the launching of the cameras and the handlers of the web server are
-- left to other work.
pub mod Common
pub mod Wire
pub mod Link
pub mod Forward
pub mod Mode
pub mod Metrics
pub mod Session
pub mod Egress
pub mod Config
pub mod Web
pub mod Vpn
pub mod Startup
pub mod Camera
pub mod Witness
