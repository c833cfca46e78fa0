-- ===== src/Tools.antt =====
-- www/scripts/dashboard.js: the rows of tool calls in the terminal and the groups that fold them,
-- `ocToolInfo`, `ocToolGroupFor`, `ocToolRow`, `ocToolUpdate` and `ocUpdateToolGroup`. What is on the
-- screen is kept with the maps that find it, since both are emptied together. A group is named by the
-- message that it stands before; its entries are the rows that name it, in the order they were made.
pub mod Heads
pub mod Runs
mod Tests
use tuxwall.Base.{
  ℕ, zero, suc, ◌+◌, ◌-◌, String, Bool, true, false, not, ◌&&◌, ◌||◌, Option, none, some, List, [],
  ◌∷◌, ◌++◌, map, keep, length, any, take, ◌==◌, str_eq, if◌then◌else◌,
}

-- What a tool call was given, a text that is missing as an empty one.
pub record Arguments : Type 0 where
  pub command : String
  pub file_path : String
  pub path : String
  pub pattern : String
  pub query : String
  pub url : String

pub data Result : Type 0 where
  no_result : Result
  diff failure output : String → Result

-- A part of a message that tells of a tool call: its key, the name to show, and its state; `status`
-- is in lower case, and empty where it is missing.
pub record Part : Type 0 where
  pub key : String
  pub pretty : String
  pub arguments : Arguments
  pub title : String
  pub status : String
  pub diff_text : String
  pub error_text : String
  pub output_text : String

abbrev pub or_text : String → String → String
or_text a b = if str_eq a "" then b else a

-- `detail` of `ocToolInfo`, of which the row shows the first 120 characters
abbrev pub detail_of : Part → String
detail_of p =
    let a = p.arguments in
    or_text a.command (
      or_text a.file_path
        (or_text a.path (or_text a.pattern (or_text a.query (or_text a.url p.title)))))

pub data RowState : Type 0 where
  row_running row_done row_error row_pending : RowState

abbrev pub row_state : String → RowState
row_state status =
    if str_eq status "running" || str_eq status "streaming"
    then row_running
    else if str_eq status "completed" || str_eq status "done"
    then row_done
    else if str_eq status "error"
    then row_error
    else row_pending

pub record Row : Type 0 where
  pub key : String
  pub pretty : String
  pub status : String
  pub detail : String
  pub shown_state : RowState
  pub out : Result
  pub out_hidden : Bool
  pub group : Option ℕ

pub data GroupState : Type 0 where
  group_running group_error group_done : GroupState

pub record NameCount : Type 0 where
  pub name : String
  pub n : ℕ

-- The head of a group: the count of calls, up to four names with their counts, how many more names
-- there are, and the state.
pub record Head : Type 0 where
  pub count : ℕ
  pub names : List NameCount
  pub more : ℕ
  pub shown_state : GroupState

pub record Group : Type 0 where
  pub anchor : ℕ
  pub head : Head
  pub body_hidden : Bool

pub record Screen : Type 0 where
  pub rows : List Row
  pub groups : List Group

-- What `ocUpdateToolGroup` reads of an entry.
pub record Entry : Type 0 where
  pub name : String
  pub status : String

abbrev pub count_name : String → List NameCount → List NameCount
count_name nm [] = record { name = nm; n = 1 } ∷ []
count_name nm (c ∷ cs) =
    let rest = count_name nm cs in
    if str_eq c.name nm then record c { n = c.n + 1 } ∷ cs else c ∷ rest

pub count_names : List Entry → List NameCount → List NameCount
count_names [] cs = cs
count_names (e ∷ es) cs = count_names es (count_name (or_text e.name "Tool") cs)

abbrev pub is_active : Entry → Bool
is_active e = str_eq e.status "running" || str_eq e.status "streaming" || str_eq e.status "pending"

-- `ocUpdateToolGroup`
unfoldable pub head_of : List Entry → Head
unfolding count_names
head_of es =
    let names = count_names es [] in
    record {
      count = length es;
      names = take 4 names;
      more = length names - 4;
      shown_state =
          if any is_active es
          then group_running
          else if any (λ e. str_eq e.status "error") es
          then group_error
          else group_done;
    }

abbrev pub in_group : ℕ → Option ℕ → Bool
in_group a none = false
in_group a (some b) = b == a

abbrev pub entry_of : Row → Entry
entry_of r = record { name = r.pretty; status = r.status }

-- `group.entries`
abbrev pub entries : ℕ → List Row → List Entry
entries a rows = map entry_of (keep (λ r. in_group a r.group) rows)

abbrev pub has_key : String → List Row → Bool
has_key k rows = any (λ r. str_eq r.key k) rows

pub on_key : String → (Row → Row) → List Row → List Row
on_key k f [] = []
on_key k f (r ∷ rs) = let rest = on_key k f rs in if str_eq r.key k then f r ∷ rs else r ∷ rest

pub group_of : String → List Row → Option ℕ
group_of k [] = none
group_of k (r ∷ rs) = let rest = group_of k rs in if str_eq r.key k then r.group else rest

-- A diff is shown rather than an error, and an error rather than an output.
abbrev pub result_of : Part → Result
result_of p =
    if not (str_eq p.diff_text "")
    then diff p.diff_text
    else if not (str_eq p.error_text "")
    then failure p.error_text
    else if not (str_eq p.output_text "")
    then output p.output_text
    else no_result

abbrev pub with_result : Result → Row → Row
with_result no_result r = r
with_result (diff t) r = record r { out = diff t; out_hidden = false }
with_result (failure t) r = record r { out = failure t; out_hidden = false }
with_result (output t) r = record r { out = output t; out_hidden = true }

-- What `ocToolUpdate` changes of a row.
abbrev pub updated : Part → Row → Row
updated p r =
    let status = or_text p.status "pending" in
    with_result (result_of p) (record r {
      pretty = p.pretty;
      status = status;
      detail = detail_of p;
      shown_state = row_state status;
    })

abbrev pub new_row : Part → Option ℕ → Row
new_row p anchor = record {
  key = p.key;
  pretty = p.pretty;
  status = "pending";
  detail = "";
  shown_state = row_pending;
  out = no_result;
  out_hidden = true;
  group = anchor;
}

abbrev pub new_group : ℕ → Group
new_group a = record {
  anchor = a;
  head = record { count = 0; names = []; more = 0; shown_state = group_done };
  body_hidden = true;
}

-- `ocToolGroupFor`
abbrev pub group_for : Option ℕ → List Group → List Group
group_for none gs = gs
group_for (some a) gs = if any (λ g. g.anchor == a) gs then gs else gs ++ new_group a ∷ []

abbrev pub refreshed : List Row → Option ℕ → Group → Group
refreshed rows o g =
    if in_group g.anchor o then record g { head = head_of (entries g.anchor rows) } else g

-- `ocToolUpdate`
unfoldable pub tool_update : Part → Screen → Screen
unfolding head_of on_key group_of
tool_update p s =
    let rows = on_key p.key (updated p) s.rows in
    record { rows = rows; groups = map (refreshed rows (group_of p.key rows)) s.groups }

abbrev pub added : Part → Option ℕ → Screen → Screen
added p anchor s =
    if has_key p.key s.rows
    then s
    else record { rows = s.rows ++ new_row p anchor ∷ []; groups = group_for anchor s.groups }

-- `ocToolRow`, before a message if that is on the screen
unfoldable pub tool_row : Part → Option ℕ → Screen → Screen
unfolding tool_update
tool_row p anchor s = tool_update p (added p anchor s)

-- the clicks on a row and on the head of a group
abbrev pub flip_out : Row → Row
flip_out r = record r { out_hidden = not r.out_hidden }

abbrev pub flip_body : ℕ → Group → Group
flip_body a g = if g.anchor == a then record g { body_hidden = not g.body_hidden } else g

pub data Event : Type 0 where
  part_came : Part → Option ℕ → Event
  row_clicked : String → Event
  head_clicked : ℕ → Event
  cleared : Event

abbrev pub empty : Screen
empty = record { rows = []; groups = [] }

unfoldable pub handle : Event → Screen → Screen
unfolding tool_row on_key
handle (part_came p anchor) s = tool_row p anchor s
handle (row_clicked k) s = record s { rows = on_key k flip_out s.rows }
handle (head_clicked a) s = record s { groups = map (flip_body a) s.groups }
handle cleared s = empty

unfoldable pub run : List Event → Screen → Screen
unfolding handle
run [] s = s
run (e ∷ es) s = run es (handle e s)
