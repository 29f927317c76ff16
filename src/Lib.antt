-- ===== src/Lib.antt =====
-- The mesh firmware: the packet formats, the AODV router with its buffers, ACKs, gateways and user
-- table, the manager of the users of a node, the encryption of packets, the radio, the phones behind
-- Bluetooth, and the links to the Internet server and to the simulation over MQTT.
--
-- The program. A node is an ESP32 with a LoRa radio. `AODVRouter` (src/aodvRouter.h and .cpp) gets
-- packets from the radio manager, finds routes, forwards, retries until an ACK comes, keeps the
-- table of users and their home nodes, and tells the phones (`IClientNotifier`) and the MQTT broker
-- what happens. `UserSessionManager` (src/userSessionManager.h and .cpp) knows the users of the node,
-- keeps messages for those who are offline, and collects the changes that the router broadcasts.
-- The headers and their serialisers are in src/packet.h, AES-GCM in src/crypto/crypto.cpp.
-- `RadioManager` (src/radioManager.cpp) queues the packets in both directions, and sends one when the
-- channel is free. `BluetoothManager` (src/bluetoothManager.cpp) parses what a phone writes, answers
-- it or queues a request, and encodes what the phones are told. `NetworkMessageHandler`
-- (src/networkMessageHandler.cpp) is the queue of requests in front of the router.
-- `GatewayManager` (src/gatewayManager.cpp) exchanges messages with the Internet server while Wi-Fi
-- is up, and `MQTTManager` (src/mqttManager.cpp) mirrors the node in a simulation.
--
-- The files.
--   Prelude      names passed on, Boolean tests, lists, maps as ordered association lists, sets
--   Exec         methods as a state monad; Exec/Keeps: invariants of methods, one rule for each way
--                to build one, and the ruleset `keeps_rules`
--   Queues       the queues of FreeRTOS as bounded lists; Bounds
--   Packet       src/packet.h: constants and headers; Bytes (`memcpy` of little-endian words),
--                Serialise (each `serialiseX` and `deserialiseX`; `x_bytes` are the bytes written),
--                RoundTrip, UserRoundTrip, Offsets (round trips)
--   Client       src/IClientNotifier.h
--   Crypto       src/crypto/crypto.cpp, over a record of the mbedTLS calls
--   Sessions     src/userSessionManager.cpp; Inbox (bound and order), Diff (reported changes),
--                Login (what an inbox holds)
--   Router       src/aodvRouter.h and .cpp:
--     State      the fields of the object and the calls to its surroundings
--     Table      updateRoute, getRoute, invalidateRoute; Routes, Invalidate
--     Buffers    the buffers, sets and tables of aodvRouter.h; Pop
--     Gateways   addGateway, removeGateway, recomputeClosestGateway; Closest
--     Transmit   transmitPacket, storeAckPacket, buildNonce; Nonce, Wire, Succeeds
--     Send       sendX; Users (sendUserMessage, sendMoveUserReq), Info (sendBroadcastInfo), Chunks
--     Flush      flushDataQueue, flushMoveReqBuffer, flushUserRouteBuffer
--     Acks       cleanupAckBuffer, removeFromACKBuffer, tryImplicitAck; Cleanup, Reports (of failures),
--                GivesUp
--     Handle     the handlers: Routes (RREQ, RREP, RERR, DATA, ACK), Info (BROADCAST_INFO; Gut,
--                Reports),
--                Users (USER_MSG, UREQ, UREP, UERR; Delivery), Keys (keys, MOVE_USER_REQ)
--     Receive    handlePacket; Accept, Duplicates, EndToEnd, Relay (over a node between),
--                DataEndToEnd, Replays (a packet that comes again)
--     Tasks      begin, routerTask, the timers and timerWorkerTask, the calls of src/IRouter.h
--     Invariant  what a property needs to survive every single change of the state
--     Keeping    every method and handler keeps every such property; Instances, Gateways, Life
--   Node         what the managers of a node share: its router, sessions, queues and phones
--   Messages     src/networkMessageHandler.cpp
--   Bluetooth    src/bluetoothManager.cpp: the protocol and its parser; Encode, Transmit (towards the
--                phones, with both workers), Process (processIncomingMessage, on_write and the other
--                callbacks), RoundTrip, Requests, Replay, Delivery, Rejects, Bounds, Runs
--   Delivers     a message from phone to phone, over two nodes
--   Radio        src/radioManager.cpp: options, state and queues; Backoff, Tasks (the tasks and the
--                steps of a radio), Order, Bounds, Contention, Faults, Deaf
--   Gateway      src/gatewayManager.cpp: uplink, Wi-Fi events; Sync (registration, oneSync, the time),
--                Uplinks, Wifi, Events, Batches
--   Mqtt         src/mqttManager.cpp; Topics
--   Examples     the theorems at concrete nodes
--
-- The model. A definition has the name of the source in snake case. A method is a function from the
-- state to its result and the new state; an early return is a branch, a loop is a recursion over
-- its list, and a part of a long method is a definition of its own. Numbers are natural numbers;
-- a `uint8_t` that the code increments is taken modulo 256 (`u8`), the length of a user message
-- modulo 2^32, and elapsed ticks modulo 2^32. Where the source reads or writes outside an object,
-- or through a null pointer, the model sets `faulted` and does nothing else in its place.
--
-- A task of FreeRTOS is a round of its loop, from one wait to the next, and tasks take turns: of the
-- radio by the relation `Step` and its closure `Reach`, of the router by `Lives`, of a node by lists
-- of `Event`s, of the gateway's event group by lists of `WifiEvent`s. A task that is blocked on an
-- event group is woken with the bits of the moment in which one is set.
--
-- The surroundings. `esp_random`, `pvPortMalloc` and `enqueueTxPacket` are streams of results in
-- `Env`, of which the state counts what was read. What the router asks of the phones, of the gateway
-- and of MQTT is appended to logs of its state; the radio's queue is its log `transmitted`. Radio,
-- Bluetooth, Gateway and Mqtt model what the managers do with such a call.
-- mbedTLS is the record `Mbedtls`, and `IsGcm` is what the theorems use of it: a cipher text is as
-- long as its plain text, a tag has the length that was asked for, and what was encrypted is
-- decrypted under the same nonce and associated data. Examples has an instance. What the radio's
-- hardware does in a round is a `Chance` (is the channel free, a random number, the result of
-- startTransmit); the Internet server is a function from requests to answers, the clock a number, and
-- the printer and the parser of JSON are functions of the manager's state. Packets and messages that
-- arrive are arguments.
--
-- Bounds and fuel. `chunks`, the loop of sendBroadcastInfo, has fuel: each round takes an id at least,
-- so the number of ids is enough, which is what `send_broadcast_info` gives. So have the decimal
-- numerals, a digit a round, with the digits of the largest 64-bit number. The loop of the
-- transmitting task has none: each try is a round of its own.
-- A packet has 255 bytes at most, of which 20 are the base header and 8 the tag.
--
-- Not modelled: mutexes and delays, except the waits of the transmitting task (a method is one step);
-- failures to create a queue, a task or a timer; the order in which an unordered set is walked (the
-- model walks it in ascending order); the log, the display, and the set-up of the BLE library, the
-- radio chip and Wi-Fi, which are calls into other libraries; the request to the time server, of
-- which `broadcast_utc` gets the seconds; pingPongRouter, an early test; the release of memory.
pub mod Prelude
pub mod Exec
pub mod Queues
pub mod Packet
pub mod Client
pub mod Crypto
pub mod Sessions
pub mod Router
pub mod Node
pub mod Messages
pub mod Bluetooth
pub mod Delivers
pub mod Radio
pub mod Gateway
pub mod Mqtt
pub mod Examples
