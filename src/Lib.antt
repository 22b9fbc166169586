-- ===== src/Lib.antt =====
-- A verification library for jaspy's three browser programs: the weather map that draws a network
-- of switches, its links and their load (weathermap/js), the web interface of its server
-- (nexus/webui/src), and the page of switchmaster that shows where each switch is
-- (switchmaster/src/Jaspy.Switchmaster/ClientApp/src).
--
-- The weather map. `app.js` runs a loop of frames: timers start requests to the topology, state,
-- position and statistics servers, and flags ask for drawing and animation. `devicegraph.js` keeps
-- the devices by name and hands each answer to them. A device (`device.js`) owns interfaces
-- (`interface.js`) and one link group (`linkgroup.js`) for each neighbour; a group owns links
-- (`link.js`), each at an interface of the device. `effects` are circles and texts that fade over a
-- device. `util.js` has the colours and host names, `simulationglobals.js` the shared flags.
--
-- The web interface is a set of React pages over the API of the server. `hooks/useLiveSocket.ts`
-- keeps a socket to a topic of the server open, for the app (`App.tsx`) and for logs
-- (`components/LiveLog.tsx`); `api/client.ts` sends the requests and `api/types.ts` says what the
-- answers hold. The pages compute what they show from the answers: `pages/STP.tsx` the route
-- between two switches of a spanning tree, `pages/Issues.tsx` the rows of the issue list, their
-- order, the selection and the acknowledgements, `pages/Discovery.tsx` two forms,
-- `pages/DeviceDetail.tsx` the tables of a device, the summary of its ports and the health of its
-- interfaces, `pages/Maintenance.tsx` the live rates, the name of the event and the reset.
-- `components` has the badges and the menu that the pages share.
--
-- The page of switchmaster keeps the switches in a store (`store/mutations.ts`). `store/actions.ts`
-- sends requests, `App.vue` takes the messages of the server's hub, and
-- `components/SwitchStatePanel.vue` moves a switch from one state to the next.
--
-- The files of the weather map. Each part is modelled in the file of its name under Weathermap: App
-- (frame, mainLoop, dataUpdate and the other handlers as steps of a state), DeviceGraph and
-- DeviceGraph/Statistics (the batch), Device with Topology, Status, Input, Animation and Draw,
-- LinkGroup, Link, Interface, Effect, Util, Keyboard (of util.js) and Config. World is the state
-- that they share. The other files below a part hold its lemmas and theorems: Invariant, Keeps,
-- Running and Loop for the page; Membership, Linked, Groups, Drawable, BatchLaws and Search for the
-- graph; Linked, Groups, Drawn, Animates, Drag, Fading and StatusLaws for a device.
--
-- The files of the web interface, under Webui: StpPath (computeStpPath), LiveSocket (the state of
-- the hook, and what the browser keeps for it) with Handlers (the functions of the effect) and
-- Steps (the events), Issues (the rows) with Order (makeCmp, rowSortVal and the two lists), Lookup
-- (the tables by key) and Page (the state of the page and its controls), Discovery, DeviceDetail,
-- LiveLog, Client and App; Types and IssueTypes are records of the API, Text is `split` and `join`,
-- Grouping a `Map` of lists, Tables the filters and orders of Devices.tsx, Vlans.tsx and the tables
-- of DeviceDetail.tsx over the records of DeviceTypes, Times how long ago something was, Platform
-- what the browser gives. DeviceDetail has the children Ports (summarizePorts and the kinds of
-- optics), Health (the lines, and the badges of components/StatusBadge.tsx), Units and Rows
-- (InterfaceDetail), with Patterns for its regular expressions. Client/Calls has the calls of the
-- API, and Client/Calls/Routes the routes that main.rs mounts at /api/v1, /api/v1/discovery and /
-- (routes/webui.rs). Maintenance is the page of that name with the child Status, StpPage the page
-- around the route (with Cells), Discovery/Page the one around the forms, Tables/Pages those of
-- Devices.tsx and Vlans.tsx. App/Header is the header of the app and its sidebar. Badges has the
-- badges and the label of SyncIndicator.tsx, ActionMenu the menu, Parts what a cell shows, Overview
-- what Dashboard.tsx and ClientLocations.tsx compute. Issues/Detail and its child Body are the
-- expanded issue; DeviceDetail has further Controls (the filter and the buttons, with Sorting),
-- Bundles (port-channels) and Cells (the other tables, with Interfaces). The other files below a
-- part hold lemmas and theorems: Walk, Index, Ways and Route for the route; Kept, Backoff, Single,
-- Attempting, Disposed and Stale for the socket; Conserved, Selection, Settled, Compare, Found,
-- Keyed and Opened for the issues; Acked for the hint of a row; Forms, Settings, Saved and
-- NewDevice for discovery; Chips for the filter; Default and Pending for StpPage; Ranges and Qos;
-- Tail; Split; Filtered; Counts for the ports; Digits and Explained for the health, Marked for the
-- rows; Served for the calls; Typed and Resets for the maintenance. Prelude has the shared helpers,
-- Tests runs at sample values.
--
-- The files of switchmaster, under Switchmaster: Store (the state and the mutations), Panel, and
-- Client (the actions and the messages of the hub as events); Store/Laws, Client/Overlay and
-- Client/Names have the theorems.
--
-- How state is modelled. A method takes the shared state and its object and returns both. Interface
-- objects, which devices, links and peers share, live in a store and are named by references; a
-- neighbour is named by its FQDN, since the graph rebuilds the lists of neighbours whenever it adds
-- or removes a device. A JavaScript object used as a dictionary is the list of its entries in
-- insertion order; keys are taken to be no names of `Object.prototype` and no array indices. Code
-- that may throw returns the state it leaves behind, marked `done` or `threw`. An exception within
-- a handler ends the handler; within a frame it ends the loop. The clock is an argument, in
-- milliseconds where the code has seconds.
--
-- Parameters. Doubles and the vectors of the vendored victor.js are interfaces, `Double` and
-- `Victor`; what pixi.js says of text sizes and coordinates is `Screen`. The calls to pixi.js are
-- kept as a trace. Regular expressions of the search are a test given as an argument. For the web
-- interface, the browser's `localeCompare`, its sort, what it does with texts and the text of a
-- number are the record `Platform`; that a sort only rearranges, that a space in front is trimmed
-- away and that the empty text has nothing to trim are hypotheses, and Tests has a browser for
-- which they hold. `encodeURIComponent` is in the record `Encoding`, and what switchmaster takes
-- from the browser and from `Vue.set` is `Browser`. Which texts the server reads as an `i64` or a
-- path is `Reader`. `JSON.parse` is an argument of `request`.
--
-- The live socket is a step relation as a function of an event: the browser's sockets and timers
-- are numbered stores, and a handler keeps the topic and the status of the effect that made it. An
-- event that the browser cannot deliver, such as the open event of a closed socket, changes
-- nothing. A `Set` or a `Map` is the list of its entries in the order of insertion. A request of
-- switchmaster is two events, its start and its end, and any others may come between them.
--
-- Loops are structural recursion over the entries there are at the start. Two loops use fuel: the
-- conversion of a number to base 16, which gets more rounds than the number has digits, and the
-- loop of `ancestors` over parents, which gets one round more than there are nodes, since each
-- round but the last sees a new one.
--
-- Not modelled: the set-up of the renderer, the fetches and their rejections, console output, the
-- URLs, and `updateInterfaceUp` and `updateDeviceUp` of app.js, whose calls are commented out.
-- pixi.js, pixi-viewport.js and victor.js are copies of other projects. Of the web interface, the
-- layout of the pages, the queries and their cache, and the values of sensors, which are doubles,
-- are left out. Of the Rust server of nexus only the table of the routes that can serve the web
-- interface is modelled; its handlers, the C# service of switchmaster, cli and snmpbot are not part
-- of this library.
pub mod Prelude
pub mod Switchmaster
pub mod Tests
pub mod Weathermap
pub mod Webui
