-- ===== src/Unifi/Csv.antt =====
-- plugins/wifi-unifi-plugin/web/plugin.js: `exportClientsCsv`. A text is the list of its character
-- codes; a number is given as the text that `String` makes of it.
pub mod Reader
use tuxwall.Base.{
  ℕ, zero, suc, String, Bool, true, false, Option, none, some, List, [], ◌∷◌, ◌++◌, map, ◌==◌,
  if◌then◌else◌,
}
use tuxwall.Base.Texts.{codes}

abbrev pub Text : Type 0
Text = List ℕ

abbrev pub quote : ℕ
quote = 34

abbrev pub comma : ℕ
comma = 44

abbrev pub newline : ℕ
newline = 10

-- What the overview says of a client; a text that is missing is empty.
pub record Client : Type 0 where
  pub name : Text
  pub hostname : Text
  pub ip : Text
  pub mac : Text
  pub ssid : Text
  pub ap : Text
  pub signal : Option Text
  pub rx_rate : Option Text
  pub tx_rate : Option Text
  pub uptime : Text
  pub vlan : Option Text
  pub wired : Bool

abbrev pub text_of : Option Text → Text
text_of none = []
text_of (some t) = t

abbrev pub header : List Text
header = map codes (
    "Client" ∷ "Hostname" ∷ "IP" ∷ "MAC" ∷ "SSID" ∷ "AP" ∷ "Signal dBm" ∷ "Rx Mbps" ∷ "Tx Mbps"
    ∷ "Uptime" ∷ "VLAN" ∷ "Wired" ∷ [])

abbrev pub row_of : Client → List Text
row_of c =
    c.name
    ∷ c.hostname
    ∷ c.ip
    ∷ c.mac
    ∷ c.ssid
    ∷ c.ap
    ∷ text_of c.signal
    ∷ text_of c.rx_rate
    ∷ text_of c.tx_rate
    ∷ c.uptime
    ∷ text_of c.vlan
    ∷ codes (if c.wired then "yes" else "no")
    ∷ []

abbrev pub rows_of : List Client → List (List Text)
rows_of clients = header ∷ map row_of clients

-- `replace(/"/g, '""')`
unfoldable pub doubled : Text → Text
doubled [] = []
doubled (c ∷ cs) = let rest = doubled cs in if c == quote then quote ∷ quote ∷ rest else c ∷ rest

abbrev pub quoted : Text → Text
quoted t = quote ∷ doubled t ++ quote ∷ []

-- `join`
unfoldable pub join : ℕ → List Text → Text
join sep [] = []
join sep (t ∷ []) = t
join sep (t ∷ u ∷ us) = t ++ sep ∷ join sep (u ∷ us)

abbrev pub line_of : List Text → Text
line_of row = join comma (map quoted row)

unfoldable pub csv_of : List (List Text) → Text
csv_of rows = join newline (map line_of rows)

-- The content of the file.
unfoldable pub export_clients_csv : List Client → Text
export_clients_csv clients = csv_of (rows_of clients)
