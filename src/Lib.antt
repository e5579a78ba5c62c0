-- ===== src/Lib.antt =====
-- The collab-vm server: users connect over web sockets, view a virtual machine, take turns in
-- controlling it, vote on resetting it and chat. This library models the server's own logic and
-- proves what each part promises.
--
-- The parts, and how they interact. src/GuacInstructionParser.cpp decodes a message and calls
-- the handler of its opcode in src/CollabVM.cpp. The handlers check names, texts and limits, and
-- call the controller of the user's virtual machine, src/VMControllers/VMController.cpp, which
-- keeps the turns and the votes and calls the server back to send its instructions. All of that
-- runs on the one processing thread, so a call is a function from a state to a state and to the
-- messages sent, each with its recipient, in order. What a call reads and does not write (the
-- settings, the clock, the users that view the machine, the names) is a record `Env` or `Config`.
--
-- Which file models which part:
--   Prelude     shared names, byte strings, decimal printing, lists of users without repetition
--   Wire        `DecodeInstruction`; the element as every handler writes it
--     Wire.Digits, Wire.Literals    numbers and fixed texts of instructions
--     Wire.RoundTrip, Wire.Limits   instructions read back; the limits on what is decoded
--     Wire.Dispatch                 `ParseInstruction` and the table of opcodes
--   Turns       `TurnRequest`, `NextTurn`, `ClearTurnQueue`, `EndTurn`, `BroadcastTurnInfo`
--     Turns.Inv, Turns.Line         the consistent states; the turns as one line of users
--     Turns.Messages                the instructions sent
--   Votes       `Vote`, `EndVote`, `SkipVote`, `RemoveUser` and the vote instructions
--     Votes.Tally, Votes.Count      decisions counted; what each operation does to the counts
--     Votes.Inv, Votes.Reach        the invariant; any course of steps
--     Votes.Messages                the instructions sent
--   Names       `ValidateUsername`, `IsFilenameValid`, with a grammar in Names.Grammar
--   Html        `EncodeHTMLString`, with a reader in Html.RoundTrip
--   Chat.Ring   the circular buffer of the history: its parts in Chat.Ring.Slices, and the messages
--               it holds in Chat.Ring.Latest
--   Chat.Instruction   `OnChatInstruction`, `MuteUser`, `UnmuteUser`, `SendChatHistory`
--     Chat.Instruction.Flood, Chat.Instruction.Sent   the rate limit; the instructions sent
--   Users       `ChangeUsername`, `GenerateUsername`; with Users.Rename, `OnRenameInstruction`,
--               `SendOnlineUsersList` and the name's part of `RemoveConnection`
--     Users.Map, Users.Generated    the map of names; the search for a free name
--     Users.Inv, Users.Kept         the consistent states, and that each operation keeps them
--     Users.Course, Users.Messages  any course of events; the instructions sent
--   Admin       the opcodes and the two tests of `OnAdminInstruction`, with Admin.Gate, their table
--     Admin.Login, Admin.Actions, Admin.Handler   its cases; a call of another part is a value,
--                                   such as `skips_vote` for `SkipVote` of Votes
--     Admin.Safety, Admin.Members   outsiders; the set of administrators' connections
--   Addresses   the data of IP addresses: `OnValidate`, `ShouldCleanUpIPData`, the clean-up timer,
--               and their part of `RemoveConnection`
--     Addresses.Counts, Addresses.Inv, Addresses.Reach   counts of connections; any course of them
--   Requests    `OnTurnInstruction`, `OnVoteInstruction`, and who may use mouse and keys
--     Requests.Flood, Requests.Joining   the rate limit of turns; what `AddUser` tells
--   Vms         the VMs: `OnConnectInstruction`, `OnListInstruction`, `AppendVMActions`
--     Vms.Connect, Vms.Messages   the answers to a request to join; the instructions sent
--     Vms.Places                  which VM's list a user stands in, with Moved and Kept
--   Uploads     `OnFileInstruction`, `CancelFileUpload`, `StartNextUpload`
--     Uploads.Valid                  the arguments, and the tests of a file's name and size
--     Uploads.Single, Uploads.Begun, Uploads.Ended, Uploads.Course   one upload for each address,
--                                                                    and who waits in the queue
--   Processing  the queue of actions and the processing thread; a call of another part is a value
--     Processing.Actions   `ProcessingThread`, action by action, its rounds, and `Stop`
--     Processing.Queue, Processing.Growth, Processing.Order   the queue; the order of the actions
--     Processing.Marked, Processing.Kept, Processing.Connections   the set of connections and the
--                                                                  keep-alive
--     Processing.Reports, Processing.Shutdown, Processing.Stop   how the thread ends
--   UserList    the linked list of a VM's users, src/UserList.h
--     UserList.Links, UserList.Holds, UserList.Refine   the links along a list; what the walk meets
--   Base64      the encoder of src/Base64.h, with a reader in Base64.RoundTrip
--   Settings    the settings of the panel: parsed values, errors, the loop over the members
--     Settings.Server      `ParseServerSettings`
--     Settings.Checked, Settings.Ranges, Settings.Blacklist   all or none; ranges; the blacklist
--     Settings.Vm, Settings.Defined   `ParseVMSettings`; on which objects it is defined
--     Settings.Write, Settings.RoundTrip   `WriteServerSettings`; a VM's settings read back
--     Settings.Keys, Settings.Storable   used by it: the table of names; what is written, read back
--     Settings.Store, Settings.Perform   `PerformConfigFunction`, function by function, and
--                                        `GetServerSettings`
--     Settings.Gives, Settings.Named     the name of a VM while its settings are read
--     Settings.Keyed, Settings.Changes, Settings.Course   the map of VMs under any course of requests
--   Agent       Sockets/AgentClient: the client of the agent in a VM's guest
--     Agent.Bytes, Agent.State       the numbers and texts of AgentProtocol.h; the state, `Connect`,
--                                    `Disconnect`, `DisconnectSocket` of SocketClient
--     Agent.Packets, Agent.Client    `OnReadBody`, case by case; the other handlers, `UploadFile`
--     Agent.Steps                    the calls of the client, and the ends of its reads and writes
--     Agent.Turns                    what a call does to the upload: Outcomes and PacketTurns for
--                                    a packet, HandlerTurns, FileTurns for the handlers
--     Agent.Inv, Agent.Reports       the consistent states; any course of events, with Kept, Ends
--   Tests       runs on small inputs
--
-- Numbers. A `uint8_t`, a `uint32_t` and an `unsigned long long` keep their wrap-around. A time is
-- a number of milliseconds or seconds on the steady clock; a difference that the source compares
-- with 0 or stores in a `uint32_t` is written out for a time that has passed. A user, an address
-- or a shared string is known by a number, so a comparison of pointers is one of numbers, and a
-- field of all users is a function.
--
-- Fuel. The loop of `DecodeInstruction` takes a byte in each round, so the length of the input
-- and one is enough, and it is shown never to run out. `GenerateUsername` tries one name more than
-- are taken, and the walk over a user list takes one step for each user; both are shown to be
-- enough. `FlushBase64` ends after two rounds.
--
-- Not modelled: the log on standard output; the web socket server, the display clients, the
-- hypervisor's connections and the sockets, which are I/O through Boost, libvncclient and cairo;
-- the database, whose calls store the settings; the copies of libguac, uriparser, cairo_jpg and
-- rapidjson;
-- the web pages under http_src; and what comes of an upload after it is accepted.
-- A timer's callback is the call that it makes.
pub mod Prelude
pub mod Wire
pub mod Turns
pub mod Votes
pub mod Names
pub mod Html
pub mod Chat
pub mod Uploads
pub mod Agent
pub mod Users
pub mod Admin
pub mod Addresses
pub mod Requests
pub mod UserList
pub mod Base64
pub mod Vms
pub mod Processing
pub mod Settings
pub mod Tests
