-- ===== src/Lib.antt =====
-- ms-robot drives Android devices from a web page. This library models the core of its front end: what
-- the page sends to a device and where, how it reads what comes back, how it names devices, and how
-- mouse, keyboard, buttons and the back end's reports change its state.
--
-- The parts, with the files of this library and the functions they stand for, all in
-- assets/web/static/js:
-- - Wire: control.js. Codes has the tables of codes; Bytes `toBigEndianBytes`; Text `stringToUtf8Bytes`;
--   VarInt `encodeVarInt`; Message the command builders from `injectKeycode` to `resetVideo`. A command
--   is the arguments of `sendControlMessage`. Fields reads fixed-size fields back, for the theorems.
-- - Session: the state of the page that the parts share: the cards of the document, `deviceRegistry`,
--   `activeWebRTCConnections`, `deviceConnectionStates` and `syncOperationEnabled`.
-- - Identity: `getDeviceApiUdid`, `getDeviceId`, `buildApiUdidFromDeviceData` and the searches for
--   cards (app.js).
-- - Control: Event is `parseControlMessage`, Device is `DeviceController`, Send is `sendControlMessage`
--   and `broadcastEventToDevices`, Actions is `handleControlAction` with its releases after 50 ms.
-- - DeviceMessage: `handleDeviceMessageBuffer`.
-- - Mouse: the handlers of `setupVideoMouseEvents`, as steps on the variables they share.
-- - Keyboard: `setupGlobalKeyboardInput`, `handleGlobalKeyboardEvent`, `keyEventToShellData`.
-- - Stream: `startDeviceStream` and `initWebRTCStream` for one device, as handlers on a World: the page,
--   the requests and runs under way, and which handlers of the peer connections are set. Steps is the
--   step relation of what the user, the back end and the browser can do, with the states it reaches;
--   Invariant, Kept and Reachable what holds of them; Connects, Stuck and Overlap what can happen. Offer
--   is the loop that sends the offer, Candidates the local ICE candidates, Servers `fetchIceServers`,
--   Playback the handlers of `pause` and `playing`.
-- - Status: `handleWebSocketMessage`, `updateDeviceStatus`, the end of the web socket.
-- - Selection: selected cards, their tick boxes, the switch of synchronous operation, device counts.
-- - DeviceList: the grouping of devices by endpoint in `loadDevices`; Render the cards by sections and in
--   one grid (`renderDevicesList`, `fillDeviceGrid`, `removeDeviceCard`); Sorted `sortDeviceCards`.
-- - Files: files.js. The list and selection of files with the buttons; Chunks `calculateMD5`, with
--   SparkMD5 as an interface; Push the form that sends files to devices; Batch the results of a batch and
--   `getSelectedAndroidDevices`; Upload `handleFiles` and `uploadFile`; Send `handleBatchInstall` and
--   `handleBatchPush`.
-- - FullScreen: `enterFullscreenMode`, `exitFullscreenMode` and the panels that move between a card and
--   the full screen; Events the clicks, the Escape key and the updates from a connection.
-- - Shell: the shell windows: one window and the fit of its terminal; Handlers what happens to one window;
--   Windows the windows of the page (`openShellPanel`, `closeShellWindow`); Events all of it in any order.
-- - Panel: the buttons of the control panels (`applyControlButtonsToPanel`, `handleAudioToggleClick`).
-- - Dialog: `showConfirmDialog`. Stream.Monitor: `startWebRtcStatusMonitor`.
-- - Tests: the theorems at concrete inputs.
--
-- How they interact: Mouse, Keyboard and Actions make commands of Wire; Send parses a touch or scroll
-- command back into an event, chooses the devices by Identity and the selection, and each device's
-- controller builds a message for its own screen. Stream makes and drops the connections that Send
-- uses, and Status and Render drop those of devices that are gone, by the same clean-up. Status moves
-- ids and states when devices come and go, and with them what the full screen finds of its device.
-- Dialog asks the full screen where to show a dialog; Upload waits for the hash of Chunks; Send installs
-- on the devices that Batch chooses.
--
-- Conventions: JavaScript strings are lists of UTF-16 code units, `null` and a missing text are the
-- empty text where the code tests both alike, a Map is an association list. Bit operations on signed
-- 32-bit words are written out. Floating-point numbers are an interface, Number; the one law that a
-- theorem uses, IsAccurate, says that a whole number scaled to a fraction of a screen size and back is
-- itself. `TextDecoder`, `toLowerCase`, `localeCompare` and `sort` are parameters, and so is the quotient
-- of a terminal's size by that of a cell. Pixels and counters are whole numbers. The fixed elements of
-- the page and of a card are taken to be there; the panels of a device are known by the safe id in their
-- element's id. Timers are explicit: what a click sends at once and what it sends after 50 ms.
--
-- Bounds: the loop of `encodeVarInt` recurses on the order of ℕ, since each round makes the value
-- smaller; the decimal digits of a number n take fuel n + 1, and each round divides by 10. The loop of
-- offers is allowed the 15 rounds of its condition, and tries again only before the 15th; the chunks of
-- a file are allowed one round more than there are chunks, since an empty file is read too.
--
-- Schedules: the answers of the back end and the checks of the connection state are functions of their
-- number, in Offer; a step relation in Stream; lists of events in Candidates, Playback, Monitor,
-- FullScreen, Shell and Dialog. The handlers of Stream are those of one device, and a step of another
-- device leaves its entries as they are. A status message that gives a device another apiUdid is no step
-- there: it is in Status, with what it leaves behind.
--
-- Not modelled: the drawing of the page, the media elements of WebRTC, the heartbeat, the titles of the
-- sections of the list, progress bars, the drawing of dialogs, endpoints, notifications, the text panel,
-- the Go back end, and copies of other projects.
pub mod Base
pub mod Number
pub mod Session
pub mod Identity
pub mod Wire
pub mod Control
pub mod DeviceMessage
pub mod Mouse
pub mod Keyboard
pub mod Status
pub mod Stream
pub mod Files
pub mod Selection
pub mod DeviceList
pub mod FullScreen
pub mod Shell
pub mod Panel
pub mod Dialog
pub mod Tests
