-- ===== src/Lib.antt =====
-- TuxWall: the logic of the dashboard that the gateway serves (www/scripts/dashboard.js), and of its
-- plugins for OpenWrt access points and for UniFi controllers.
--
-- The dashboard polls the API and shows what it says. The parts modelled are those that compute or
-- keep state of their own; what only writes HTML is kept as the values that the HTML shows.
--   Format      texts for durations, sizes and rates
--   Community   the report badges of tuxwall.org: cache and requests in flight
--   Attackers   the table of the top attackers; Attackers/Diff is its keyed update (`diffIpTable`)
--   Ipv4        `compareIp`, and the number of an address
--   Leases      the table of the DHCP clients: order, filter and counts
--   Services    the tabs and chips of the services
--   Health      the health score of the overview, from services, readings and DHCP pools
--   Dns         the upstream form: presets, detection, save and load
--   Bans        the community bans: list, pages, filter, automatic mode, and sharing (Bans/Sharing)
--   Series      what the charts compute: resampling, merging, smoothing and the curve through points
--   Session     who is signed in: the gate, the requests that a 401 answers, and the incidents
--   RowCaps     how many rows of a long table are shown
--   Wifi        the OpenWrt plugin (plugins/wifi-openwrt-plugin/web/plugin.js): its requests, the
--               numbers of its charts (Wifi/Signal), what its form for networks posts (Wifi/Forms)
--   Unifi       the UniFi plugin (plugins/wifi-unifi-plugin/web/plugin.js): the export of the clients
--               (Unifi/Csv), the lines and axes of the traffic chart (Unifi/Traffic), its settings,
--               requests and head cards (Unifi/Settings)
--   Firewall    the rules of the firewall: search, chips, and the rule that the form makes
--   Popup       the list that completes commands and file names in the terminal's input
--   Tools       the rows of tool calls in the terminal, and the groups that fold them
--   Posture     the posture cards of the overview: updates, what is exposed, bans and backups
--   Updates     the card of the system updates, its polling and its buttons
--   Cards       the permission and question cards of the agent terminal, as a queue that asks for one
--               answer at a time
--   Questions   what is chosen on one question card, what it shows of it, and what it posts
--   Agent       the turns of the terminal: the busy flag, the handler of the event stream, the watchdogs
--               and what is awaited; each async function is cut at its awaits, each answer is an event
-- Health uses Services (which unit is in which state) and Ipv4 (the size of a pool), Leases sorts by
-- Ipv4's comparison, and Attackers uses Community (each row asks for a badge) and Format. Each
-- component stands in the file of its name, and what is proved of it in the files below; Base holds
-- the shared lists, tests and the sort.
--
-- Numbers are natural numbers, but for signals in dBm (Wifi/Signal). Measurements with decimals are
-- hundredths (Health); shares and percentages are rounded exactly, where the code rounds a quotient
-- of doubles. Times are whole seconds or milliseconds, as in the code. `Array.sort` is a stable
-- insertion sort by the comparator's sign. The binary search of Series takes as many rounds as
-- there are points, which is enough; every other loop runs over a list or a fixed count.
--
-- Not modelled: the Python API server and collector, the installer scripts, nginx and systemd files
-- and the Home Assistant integration, which are not JavaScript; of the dashboard the drawing on canvas
-- and maps, form bindings and requests whose answers are only shown, and the log viewer; of the plugins
-- the VLANs, events, drawers and what their tabs draw; what the browser's locale decides (Leases, a
-- parameter); www/scripts/qrcode.js and leaflet.js, which are copies of other projects' libraries.
pub mod Base
pub mod Format
pub mod Community
pub mod Attackers
pub mod Ipv4
pub mod Leases
pub mod Services
pub mod Health
pub mod Dns
pub mod Bans
pub mod Series
pub mod RowCaps
pub mod Session
pub mod Wifi
pub mod Unifi
pub mod Firewall
pub mod Popup
pub mod Tools
pub mod Posture
pub mod Updates
pub mod Cards
pub mod Questions
pub mod Agent
