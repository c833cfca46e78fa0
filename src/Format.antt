-- ===== src/Format.antt =====
-- www/scripts/dashboard.js: `formatDuration`, `formatRelative`, `formatBytes`, `formatBits`,
-- `formatMBs`, `formatUptime`. A text is kept as the numbers and the unit that it is made of.
-- Seconds are whole (the code floors first); a negative count of seconds is 0 here, which the
-- code treats alike.
use tuxwall.Base.{ℕ, ◌-◌, ◌/◌, ◌%◌, Option, none, some, ltb, leb, ◌==◌, if◌then◌else◌}

pub data Span : Type 0 where
  dash expired : Span
  days_hours hours_minutes : ℕ → ℕ → Span
  minutes seconds : ℕ → Span

-- the part that `formatDuration` and `formatUptime` share, word for word
abbrev pub span_of : ℕ → Span
span_of sec =
    let d = sec / 86400 in
    let h = (sec % 86400) / 3600 in
    let m = (sec % 3600) / 60 in
    if ltb 0 d
    then days_hours d h
    else if ltb 0 h
    then hours_minutes h m
    else if ltb 0 m
    then minutes m
    else seconds sec

unfoldable pub format_duration : Option ℕ → Span
format_duration none = dash
format_duration (some sec) = if leb sec 0 then expired else span_of sec

unfoldable pub format_uptime : Option ℕ → Span
format_uptime none = span_of 0
format_uptime (some sec) = span_of sec

pub data Ago : Type 0 where
  never just_now : Ago
  minutes_ago hours_ago days_ago : ℕ → Ago

-- A timestamp of 0 is falsy, as a missing one is.
unfoldable pub format_relative : ℕ → ℕ → Ago
format_relative now ts =
    let diff = now - ts in
    if ts == 0
    then never
    else if ltb diff 60
    then just_now
    else if ltb diff 3600
    then minutes_ago (diff / 60)
    else if ltb diff 86400
    then hours_ago (diff / 3600)
    else days_ago (diff / 86400)

pub data Scale : Type 0 where
  one kilo mega giga tera : Scale

-- A number with its unit: the number is printed as `value / unit` with so many decimals.
pub record Scaled : Type 0 where
  pub value : ℕ
  pub scale : Scale
  pub decimals : ℕ

abbrev pub scaled : ℕ → Scale → ℕ → Scaled
scaled v s d = record { value = v; scale = s; decimals = d }

abbrev pub binary_unit : Scale → ℕ
binary_unit one = 1
binary_unit kilo = 1024
binary_unit mega = 1048576
binary_unit giga = 1073741824
binary_unit tera = 1099511627776

abbrev pub decimal_unit : Scale → ℕ
decimal_unit one = 1
decimal_unit kilo = 1000
decimal_unit mega = 1000000
decimal_unit giga = 1000000000
decimal_unit tera = 1000000000000

unfoldable pub format_bytes : ℕ → Scaled
format_bytes n =
    if ltb n 1024
    then scaled n one 0
    else if ltb n 1048576
    then scaled n kilo 1
    else if ltb n 1073741824
    then scaled n mega 1
    else if ltb n 1099511627776
    then scaled n giga 2
    else scaled n tera 2

unfoldable pub format_bits : ℕ → Scaled
format_bits bps =
    if leb 1000000000 bps
    then scaled bps giga 2
    else if leb 1000000 bps
    then scaled bps mega 2
    else if leb 1000 bps
    then scaled bps kilo 1
    else scaled bps one 0

unfoldable pub format_mbs : ℕ → Scaled
format_mbs b =
    if leb 1048576 b
    then scaled b mega 2
    else if leb 1024 b
    then scaled b kilo 1
    else scaled b one 1
