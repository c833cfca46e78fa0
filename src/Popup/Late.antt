-- ===== src/Popup/Late.antt =====
-- File names that are picked, from the answer to what is typed and from an earlier answer.
use tuxwall.Base.{
  ℕ, ◌≡◌, refl, ap, ◌∙◌, Bool, true, false, none, some, List, [], ◌∷◌, ◌++◌, length, any, drop,
  ◌==◌, arith, if-elim,
}
use tuxwall.Popup.{
  Text, at_sign, space, Input, file, same_text, at_last, split_at, with_file, oc_popup_show, found,
  files_answered, oc_popup_pick, Event, answered, tab_pressed, handle, run,
}

abbrev pub has_at : Text → Bool
has_at t = any (λ c. c == at_sign) t

at_last-none : (t : Text) → has_at t ≡ false → at_last t ≡ none
unfolding at_last
at_last-none [] h = refl
at_last-none (c ∷ cs) h =
    ap (split_at c cs) (at_last-none cs (ground (arith, h)))
    ∙ if-elim (λ o. o ≡ none) (c == at_sign) (some ([], cs)) none (λ e. ground (arith, e, h))
        (λ e. refl)

at_last-split :
    (before after : Text)
    → has_at after ≡ false
    → at_last (before ++ at_sign ∷ after) ≡ some (before, after)
unfolding at_last
at_last-split [] after h = ap (split_at at_sign after) (at_last-none after h)
at_last-split (c ∷ cs) after h = ap (split_at c (cs ++ at_sign ∷ after)) (at_last-split cs after h)

same_text_refl : (t : Text) → same_text t t ≡ true
same_text_refl [] = refl
same_text_refl (c ∷ cs) = ground (arith, same_text_refl cs)

drop-length : (t : Text) → drop (length t) t ≡ []
drop-length [] = refl
drop-length (c ∷ cs) = drop-length cs

-- The input says `before`, an "@" and `after`, while the file names for `token` are asked for.
abbrev pub asking : Text → Text → Text → Input → Input
asking before after token s = record s {
  value = before ++ at_sign ∷ after;
  asked = token ∷ s.asked;
}

-- Names arrive for `token`, the first of them `c ∷ cs`, and Tab picks it.
abbrev pub pick_first : Text → ℕ → Text → List Text → List Event
pick_first token c cs more = answered token (found ((c ∷ cs) ∷ more)) ∷ tab_pressed ∷ []

answered-asking :
    (before after token : Text) (c : ℕ) (cs : Text) (more : List Text) (s : Input)
    → files_answered token (found ((c ∷ cs) ∷ more)) (asking before after token s)
      ≡ oc_popup_show file ((c ∷ cs) ∷ more) token (record s { value = before ++ at_sign ∷ after })
unfolding files_answered
answered-asking before after token c cs more s =
    let t = asking before after token s in
    if-elim
      (λ u.
        u
        ≡ oc_popup_show file ((c ∷ cs) ∷ more) token
            (record s { value = before ++ at_sign ∷ after }))
      (any (λ u. same_text u token) t.asked) _ t
      (λ e.
        ap (λ l. oc_popup_show file ((c ∷ cs) ∷ more) token (record t { asked = l }))
          (ground (arith, same_text_refl token)))
      (λ e. ground (arith, e, same_text_refl token))

-- Tab on the first of the names that came for `token` puts it where the last "@" is. If they came for
-- what is there behind that sign, the name and a space take its place; if more has been typed since
-- they were asked for, or less, what is there without its first characters, as many as `token` has,
-- stays behind the name.
pub run-pick_first :
    (before after token : Text) (c : ℕ) (cs : Text) (more : List Text) (s : Input)
    → has_at after ≡ false
    → ((run (pick_first after c cs more) (asking before after after s)).value
        ≡ before ++ at_sign ∷ (c ∷ cs) ++ space ∷ [])
      × ((run (pick_first token c cs more) (asking before after token s)).value
          ≡ before ++ at_sign ∷ (c ∷ cs) ++ space ∷ drop (length token) after)
unfolding run handle oc_popup_pick
run-pick_first before after token c cs more s h =
    let late : (t : Text)
        → (run (pick_first t c cs more) (asking before after t s)).value
          ≡ before ++ at_sign ∷ (c ∷ cs) ++ space ∷ drop (length t) after =
      λ t.
        ap (λ u. (handle tab_pressed u).value) (answered-asking before after t c cs more s)
        ∙ ap (λ o. with_file (c ∷ cs) (length t) o (before ++ at_sign ∷ after))
            (at_last-split before after h) in
    (
      late after ∙ ap (λ r. before ++ at_sign ∷ (c ∷ cs) ++ space ∷ r) (drop-length after),
      late token,
    )
