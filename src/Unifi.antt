-- ===== src/Unifi.antt =====
-- plugins/wifi-unifi-plugin/web/plugin.js: the plugin for UniFi controllers. The export of the clients
-- is in Unifi/Csv, the numbers of the traffic chart in Unifi/Traffic, settings and requests in
-- Unifi/Settings.
pub mod Csv
pub mod Traffic
pub mod Settings
mod Tests
