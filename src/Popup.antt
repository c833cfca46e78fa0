-- ===== src/Popup.antt =====
-- www/scripts/dashboard.js: the list that completes commands and file names in the terminal's input,
-- `ocPopupShow`, `ocPopupHide`, `ocPopupPick`, `ocMaybePopup`, `ocSubmit` and the keys of the input.
-- A text is the list of its character codes; `trim` takes off the codes up to 32, and `toLowerCase`
-- is that of the letters of commands. A request for file names is named by the text it asks for.
pub mod Chosen
pub mod Late
mod Tests
use tuxwall.Base.{
  ℕ, zero, suc, ◌+◌, ◌-◌, String, Bool, true, false, not, ◌&&◌, ◌||◌, min, Option, none, some, List,
  [], ◌∷◌, ◌++◌, map, keep, length, any, drop, take, get_elem?, ltb, leb, ◌==◌, if◌then◌else◌,
}
use tuxwall.Base.Texts.{codes}

abbrev pub Text : Type 0
Text = List ℕ

abbrev pub at_sign : ℕ
at_sign = 64

abbrev pub space : ℕ
space = 32

pub data Kind : Type 0 where
  no_kind command file : Kind

pub record Input : Type 0 where
  pub value : Text
  pub items : List Text
  pub sel : ℕ
  pub kind : Kind
  pub token : Text
  pub hidden : Bool
  -- the requests for file names that are under way
  pub asked : List Text
  -- what has been sent, the last first
  pub sent : List Text

abbrev pub start : Input
start = record {
  value = [];
  items = [];
  sel = 0;
  kind = no_kind;
  token = [];
  hidden = true;
  asked = [];
  sent = [];
}

abbrev pub oc_commands : List Text
oc_commands = map codes (
    "/new" ∷ "/sessions" ∷ "/undo" ∷ "/redo" ∷ "/compact" ∷ "/share" ∷ "/unshare" ∷ "/init"
    ∷ "/abort" ∷ "/clear" ∷ "/models" ∷ "/help" ∷ "/exit" ∷ [])

abbrev pub same_text : Text → Text → Bool
same_text [] [] = true
same_text (c ∷ cs) (d ∷ ds) = (c == d) && same_text cs ds
same_text cs ds = false

abbrev pub starts_with : Text → Text → Bool
starts_with cs [] = true
starts_with [] (d ∷ ds) = false
starts_with (c ∷ cs) (d ∷ ds) = (c == d) && starts_with cs ds

-- `split(" ")[0]`
pub first_word : Text → Text
first_word [] = []
first_word (c ∷ cs) = let rest = first_word cs in if c == space then [] else c ∷ rest

abbrev pub lower : ℕ → ℕ
lower c = if leb 65 c && leb c 90 then c + 32 else c

pub trim_start : Text → Text
trim_start [] = []
trim_start (c ∷ cs) = let rest = trim_start cs in if leb c space then rest else c ∷ cs

pub trim_end : Text → Text
trim_end [] = []
trim_end (c ∷ cs) =
    let rest = trim_end cs in if leb c space && length rest == 0 then [] else c ∷ rest

abbrev pub trim : Text → Text
unfolding trim_start trim_end
trim t = trim_end (trim_start t)

abbrev pub push_front : ℕ → Option (Text × Text) → Option (Text × Text)
push_front c none = none
push_front c (some (before, after)) = some (c ∷ before, after)

abbrev pub split_at : ℕ → Text → Option (Text × Text) → Option (Text × Text)
split_at c cs none = if c == at_sign then some ([], cs) else none
split_at c cs (some ba) = push_front c (some ba)

-- `lastIndexOf("@")`: what is before that sign, and what is after it.
unfoldable pub at_last : Text → Option (Text × Text)
at_last [] = none
at_last (c ∷ cs) = split_at c cs (at_last cs)

abbrev pub oc_popup_hide : Input → Input
oc_popup_hide s = record s { hidden = true; items = []; kind = no_kind; token = [] }

abbrev pub oc_popup_show : Kind → List Text → Text → Input → Input
oc_popup_show kind [] token s = oc_popup_hide s
oc_popup_show kind (it ∷ items) token s = record s {
  items = it ∷ items;
  kind = kind;
  token = token;
  sel = 0;
  hidden = false;
}

-- the value once the file `it` is picked, for what is before and after the last "@"
abbrev pub with_file : Text → ℕ → Option (Text × Text) → Text → Text
with_file it n none value = value
with_file it n (some (before, after)) value = before ++ at_sign ∷ it ++ space ∷ drop n after

abbrev pub picked_value : Kind → Text → Input → Text
unfolding at_last
picked_value command it s = it ++ space ∷ []
picked_value _ it s = with_file it (length s.token) (at_last s.value) s.value

abbrev pub pick_item : Option Text → Input → Input
pick_item none s = oc_popup_hide s
pick_item (some []) s = oc_popup_hide s
pick_item (some (c ∷ cs)) s = oc_popup_hide (record s { value = picked_value s.kind (c ∷ cs) s })

-- `ocPopupPick`, of an item that is clicked, or of the one that is selected
unfoldable pub oc_popup_pick : ℕ → Input → Input
oc_popup_pick i s = pick_item (get_elem? s.items i) s

-- the part of `ocMaybePopup` for a value with an "@" in it, before and after the last one
abbrev pub ask_files : Option (Text × Text) → Input → Input
ask_files none s = oc_popup_hide s
ask_files (some (before, after)) s =
    if any (λ c. c == space) after || ltb 60 (length after)
    then oc_popup_hide s
    else if length after == 0
    then oc_popup_hide s
    else record s { asked = after ∷ s.asked }

abbrev pub show_commands : Text → Input → Input
show_commands word s = oc_popup_show command (keep (λ c. starts_with c word) oc_commands) word s

-- `ocMaybePopup` up to its `await`
unfoldable pub oc_maybe_popup : Input → Input
unfolding first_word at_last
oc_maybe_popup s =
    if starts_with s.value (codes "/")
    then show_commands (map lower (first_word s.value)) s
    else ask_files (at_last s.value) s

-- What the request for file names brings: an error, an answer that says it is none, or names.
pub data Files : Type 0 where
  failed not_ok : Files
  found : List Text → Files

abbrev pub show_files : Files → Text → Input → Input
show_files failed token s = oc_popup_hide s
show_files not_ok token s = s
show_files (found files) token s = oc_popup_show file files token s

abbrev pub remove_one : Text → List Text → List Text
remove_one t [] = []
remove_one t (u ∷ us) = if same_text u t then us else u ∷ remove_one t us

-- The rest of `ocMaybePopup`, if the request is under way.
unfoldable pub files_answered : Text → Files → Input → Input
files_answered token files s =
    if any (λ u. same_text u token) s.asked
    then show_files files token (record s { asked = remove_one token s.asked })
    else s

abbrev pub is_command : Kind → Bool
is_command command = true
is_command _ = false

-- `ocClearInput` and the call of `sendAgentMessage`
abbrev pub send : Text → Input → Input
send text s = oc_popup_hide (record s { value = []; sent = text ∷ s.sent })

-- `ocSubmit`
unfoldable pub oc_submit : Input → Input
unfolding trim oc_popup_pick
oc_submit s =
    let text = trim s.value in
    if length text == 0
    then s
    else if not s.hidden && not (is_command s.kind && any (λ c. same_text c text) oc_commands)
    then oc_popup_pick s.sel s
    else send text s

pub data Event : Type 0 where
  typed : Text → Event
  answered : Text → Files → Event
  down_pressed up_pressed tab_pressed escape_pressed enter_pressed send_clicked : Event
  item_clicked : ℕ → Event

-- The keys that the list takes while it is shown; an item is clicked only then.
unfoldable pub handle : Event → Input → Input
unfolding oc_maybe_popup files_answered oc_submit oc_popup_pick
handle (typed value) s = oc_maybe_popup (record s { value = value })
handle (answered token files) s = files_answered token files s
handle down_pressed s =
    if s.hidden then s else record s { sel = min (s.sel + 1) (length s.items - 1) }
handle up_pressed s = if s.hidden then s else record s { sel = s.sel - 1 }
handle tab_pressed s = if s.hidden then s else oc_popup_pick s.sel s
handle escape_pressed s = if s.hidden then s else oc_popup_hide s
handle enter_pressed s = oc_submit s
handle send_clicked s = oc_submit s
handle (item_clicked i) s = if s.hidden then s else oc_popup_pick i s

unfoldable pub run : List Event → Input → Input
unfolding handle
run [] s = s
run (e ∷ es) s = run es (handle e s)
