-- ===== src/Bans/Shown.antt =====
-- What the table of the community bans shows, and what "Ban all shown" bans.
use tuxwall.Base.{
  ℕ, zero, suc, ◌+◌, ◌*◌, ◌≤◌, ◌<◌, ◌-◌, min, ltb, keep, not, String, ◌≡◌, refl, sym, ap, ◌∙◌, Bool,
  true, false, Option, none, some, List, [], ◌∷◌, map, take, length, if-elim, arith, if◌then◌else◌,
}
use mathlib.Core.Path.{subst}
use tuxwall.Bans.{
  Ban, Answer, Auto, Bans, Page, more_of, ok, failed, rows_of, render, render_known, with_status,
  loaded, refresh, asks, auto_begin, auto_end, choose_filter, load_more, ban_all_ips, ban_all_begin,
  ban_all_end, Op, refreshed, arrived, switched, switch_answered, filtered, more_pressed,
  ban_all_pressed, ban_all_done, apply, run, start, page_size, Tally, ban_each, or_else, off,
}

-- The label is not written before the first answer.
abbrev pub IsLabelled : Option Answer → Option ℕ → ℕ → Type 0
IsLabelled none label n = label ≡ none
IsLabelled (some d) label n = label ≡ some n

-- "Load more" is offered exactly while there is more than is shown, with the right numbers: how many
-- it adds, how many are shown, and of how many.
abbrev pub IsOffered : Option (ℕ × ℕ × ℕ) → ℕ → ℕ → Type 0
IsOffered none shown all = all ≤ shown
IsOffered (some (adds, n, m)) shown all =
    (adds ≡ min page_size (all - shown)) × (n ≡ shown) × (m ≡ all) × (shown < all)

-- The rows that the filter lets through.
abbrev pub total : Bans → ℕ
total s = length (rows_of s.known s.filter)

-- The page shows the first of the rows that the filter lets through, the label counts them, and
-- "Load more" offers the others.
abbrev pub IsCurrent : Bans → Type 0
IsCurrent s =
    (s.page.rows ≡ take s.shown (rows_of s.known s.filter))
    × IsLabelled s.known s.page.ban_all_label (length s.page.rows)
    × IsOffered s.page.more s.shown (total s)

-- Before the first answer nothing is shown.
abbrev IsBlank : Option Answer → List Ban → Option ℕ → Option (ℕ × ℕ × ℕ) → Type 0
IsBlank none rows label more = (rows ≡ []) × (label ≡ none) × (more ≡ none)
IsBlank (some d) rows label more = Unit

abbrev IsShown : Bans → Type 0
IsShown s = IsCurrent s × IsBlank s.known s.page.rows s.page.ban_all_label s.page.more

take-none : (n : ℕ) → take {A = Ban} n [] ≡ []
take-none zero = refl
take-none (suc n) = refl

more_of-IsOffered : (all shown : ℕ) → IsOffered (more_of all shown) shown all
more_of-IsOffered all shown =
    if-elim (λ o. IsOffered o shown all) (ltb shown all) _ none
      (λ e. (refl, refl, refl, ground (arith, e))) (λ e. ground (arith, e))

blank-IsCurrent :
    (o : Option Answer) (filter : String) (shown : ℕ) (p : Page)
    → o ≡ none
    → IsBlank o p.rows p.ban_all_label p.more
    → (p.rows ≡ take shown (rows_of o filter))
      × IsLabelled o p.ban_all_label (length p.rows)
      × IsOffered p.more shown (length (rows_of o filter))
unfolding rows_of
blank-IsCurrent none filter shown p e (b, c, d) =
    (b ∙ sym (take-none shown), c, subst (λ m. IsOffered m shown 0) (sym d) (omega arith))
blank-IsCurrent (some a) filter shown p e b = ground (arith, e)

render_known-IsShown :
    (o : Option Answer) (s : Bans)
    → s.known ≡ o
    → IsBlank o s.page.rows s.page.ban_all_label s.page.more
    → IsShown (render_known o s)
unfolding render_known
render_known-IsShown none s e b =
    (blank-IsCurrent s.known s.filter s.shown s.page e (rw e b), rw e b)
render_known-IsShown (some d) s e b =
    rw e ((refl, refl, more_of-IsOffered (length (rows_of (some d) s.filter)) s.shown), tt)

render-IsShown :
    (s : Bans) → IsBlank s.known s.page.rows s.page.ban_all_label s.page.more → IsShown (render s)
unfolding render
render-IsShown s b = render_known-IsShown s.known s refl b

apply-IsShown : (o : Op) (s : Bans) → IsShown s → IsShown (apply o s)
unfolding apply refresh loaded auto_begin auto_end choose_filter load_more ban_all_begin ban_all_end
apply-IsShown (refreshed force now) s h =
    if-elim IsShown (asks force now s) (with_status "Loading…" s) (render s) (λ e. h)
      (λ e. render-IsShown s h.1)
apply-IsShown (arrived (ok d) now) s h =
    render-IsShown
      (record s {
        known = some d;
        auto = or_else d.auto (or_else s.auto (or_else s.cache (some off)));
        cache = or_else d.auto s.cache;
        loaded_at = now;
      })
      (tt {0})
apply-IsShown (arrived (failed m) now) s h = h
apply-IsShown (switched enabled) s h = h
apply-IsShown (switch_answered enabled (ok a)) s h =
    let set = or_else a (some (record off { enabled = enabled })) in
    render-IsShown (record s { auto = set; cache = set }) h.1
apply-IsShown (switch_answered enabled (failed m)) s h = h
apply-IsShown (filtered sev) s h = render-IsShown (record s { filter = sev; shown = page_size }) h.1
apply-IsShown more_pressed s h = render-IsShown (record s { shown = s.shown + page_size }) h.1
apply-IsShown ban_all_pressed s h = h
apply-IsShown (ban_all_done text) s h = h

run-IsShown : (os : List Op) (s : Bans) → IsShown s → IsShown (run os s)
unfolding run
run-IsShown [] s h = h
run-IsShown (o ∷ os) s h = run-IsShown os (apply o s) (apply-IsShown o s h)

run-start-IsShown : (cache : Option Auto) (os : List Op) → IsShown (run os (start cache))
unfolding rows_of
run-start-IsShown cache os =
    run-IsShown os (start cache)
      ((sym (take-none page_size), refl, omega arith), (refl, refl, refl))

abbrev pub answers_of : Bool → List (String × Bool) → ℕ
answers_of b answers = length (keep (λ (a : String × Bool). if b then a.1 else not a.1) answers)

ban_each-done :
    (answers : List (String × Bool)) (t : Tally)
    → (ban_each answers t).done ≡ t.done + answers_of true answers
unfolding ban_each
ban_each-done [] t = omega arith
ban_each-done ((ip, true) ∷ rest) t =
    omega (arith, ban_each-done rest (record t { done = t.done + 1 }))
ban_each-done ((ip, false) ∷ rest) t =
    omega (arith, ban_each-done rest (record t { failures = t.failures + 1 }))

ban_each-failures :
    (answers : List (String × Bool)) (t : Tally)
    → (ban_each answers t).failures ≡ t.failures + answers_of false answers
unfolding ban_each
ban_each-failures [] t = omega arith
ban_each-failures ((ip, true) ∷ rest) t =
    omega (arith, ban_each-failures rest (record t { done = t.done + 1 }))
ban_each-failures ((ip, false) ∷ rest) t =
    omega (arith, ban_each-failures rest (record t { failures = t.failures + 1 }))

length-ips : (bs : List Ban) → length (map (λ b. b.ip) bs) ≡ length bs
length-ips [] = refl
length-ips (b ∷ bs) = omega (arith, length-ips bs)

abbrev pub nobody : Tally
nobody = record { done = 0; failures = 0 }

abbrev pub answered_ips : List (String × Bool) → List String
answered_ips answers = map (λ a. a.0) answers

-- The click on "Ban all shown" bans what the page shows, its label counts it, and the two numbers at
-- its end are those of the bans made and of the bans that failed.
abbrev pub BansShown : List (String × Bool) → Bans → Type 0
BansShown answers s =
    (ban_all_ips s ≡ map (λ b. b.ip) s.page.rows)
    × IsLabelled s.known s.page.ban_all_label (length (ban_all_ips s))
    × ((ban_each answers nobody).done ≡ answers_of true answers)
    × ((ban_each answers nobody).failures ≡ answers_of false answers)
    × (answers_of true answers + answers_of false answers ≡ length s.page.rows)

answers-all :
    (answers : List (String × Bool))
    → answers_of true answers + answers_of false answers ≡ length (answered_ips answers)
answers-all [] = refl
answers-all ((ip, true) ∷ rest) = omega (arith, answers-all rest)
answers-all ((ip, false) ∷ rest) = omega (arith, answers-all rest)

-- Whatever is loaded, filtered, paged and switched in whatever order: "Ban all shown" bans the
-- addresses of the rows that the table shows, in their order; its label says how many they are, once
-- an answer has come. If each of those addresses got an answer, then of the two numbers at the end the
-- first is that of the bans made, the second that of the bans that failed, and together they are the
-- rows.
pub run-ban_all :
    (cache : Option Auto) (os : List Op) (answers : List (String × Bool))
    → answered_ips answers ≡ ban_all_ips (run os (start cache))
    → BansShown answers (run os (start cache))
unfolding ban_all_ips
run-ban_all cache os answers a =
    let s = run os (start cache) in
    let h = run-start-IsShown cache os in
    let ips = ap (map (λ b. b.ip)) (sym (h.0.0)) in
    let count = ap length ips ∙ length-ips s.page.rows in
    (
      ips,
      subst (IsLabelled s.known s.page.ban_all_label) (sym count) (h.0.1),
      omega (arith, ban_each-done answers nobody),
      omega (arith, ban_each-failures answers nobody),
      answers-all answers ∙ ap length a ∙ count,
    )

-- some clicks on "Load more"
abbrev pub press : ℕ → Bans → Bans
press zero s = s
press (suc n) s = press n (load_more s)

take-all : (n : ℕ) (bs : List Ban) → length bs ≤ n → take n bs ≡ bs
take-all zero [] h = refl
take-all zero (b ∷ bs) h = absurd (omega (arith, h))
take-all (suc n) [] h = refl
take-all (suc n) (b ∷ bs) h = ap (b ∷◌) (take-all n bs (omega (arith, h)))

abbrev IsSame : Bans → ℕ → Bans → Type 0
IsSame s n t = (t.known ≡ s.known) × (t.filter ≡ s.filter) × (t.shown ≡ n)

render_known-IsSame : (o : Option Answer) (s : Bans) → IsSame s s.shown (render_known o s)
unfolding render_known
render_known-IsSame none s = (refl, refl, refl)
render_known-IsSame (some d) s = (refl, refl, refl)

press-IsSame : (n : ℕ) (s : Bans) → IsSame s (s.shown + page_size * n) (press n s)
unfolding load_more render
press-IsSame zero s = (refl, refl, omega arith)
press-IsSame (suc n) s =
    let h = render_known-IsSame s.known (record s { shown = s.shown + page_size }) in
    let k = press-IsSame n (load_more s) in (k.0 ∙ h.0, k.1 ∙ h.1, omega (arith, k.2, h.2))

press-IsShown : (n : ℕ) (s : Bans) → IsShown s → IsShown (press n s)
unfolding apply
press-IsShown zero s h = h
press-IsShown (suc n) s h = press-IsShown n (load_more s) (apply-IsShown more_pressed s h)

not_offered :
    (o : Option (ℕ × ℕ × ℕ)) (shown all : ℕ) → all ≤ shown → IsOffered o shown all → o ≡ none
not_offered none shown all h k = refl
not_offered (some (a, n, m)) shown all h k = absurd (omega (arith, h, k.3))

-- After any run, the button "Load more" stands below the table exactly while not all of the rows that
-- the filter lets through are shown, and says how many it adds, how many are shown and of how many; and
-- the clicks on it end: once there are as many of them as the rest needs, at 25 rows each, the table
-- shows all those rows and the button is gone.
pub run-press :
    (cache : Option Auto) (os : List Op) (n : ℕ)
    → total (run os (start cache)) ≤ (run os (start cache)).shown + page_size * n
    → ((press n (run os (start cache))).page.rows
        ≡ rows_of (run os (start cache)).known (run os (start cache)).filter)
      × ((press n (run os (start cache))).page.more ≡ none)
      × ((m : ℕ)
          → IsOffered
              (press m (run os (start cache))).page.more
              ((run os (start cache)).shown + page_size * m)
              (total (run os (start cache))))
run-press cache os n h =
    let s = run os (start cache) in
    let e = press-IsSame n s in
    let offered : (m : ℕ) → IsOffered (press m s).page.more (s.shown + page_size * m) (total s) =
      λ m. still m s (run-start-IsShown cache os) in
    (
      (press-IsShown n s (run-start-IsShown cache os)).0.0
          ∙ (λ i. take (e.2 i) (rows_of (e.0 i) (e.1 i)))
          ∙ take-all (s.shown + page_size * n) (rows_of s.known s.filter) h,
      not_offered _ _ _ h (offered n),
      offered,
    )
  where
    still :
        (m : ℕ) (s : Bans)
        → IsShown s
        → IsOffered (press m s).page.more (s.shown + page_size * m) (total s)
    still m s g =
        let e = press-IsSame m s in
        let all : total (press m s) ≡ total s = (λ i. length (rows_of (e.0 i) (e.1 i))) in
        subst (λ a. IsOffered (press m s).page.more a (total s)) (e.2)
          (subst (IsOffered (press m s).page.more (press m s).shown) all (press-IsShown m s g).0.2)
