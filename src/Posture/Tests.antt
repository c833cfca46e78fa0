-- ===== src/Posture/Tests.antt =====
-- Two rounds, the second of which brings only the bans.
use tuxwall.Base.{ℕ, ◌≡◌, refl, true, false, none, some, List, [], ◌∷◌, map, length}
use tuxwall.Base.Sort.{sort, insert}
use tuxwall.Posture.{
  Round, Decision, start, run, refresh_ov_posture, bans_card, exposed_card, backup_card,
  updates_card, or_zero, ranked, tally, earliest, newest_of, render_ov_posture, lift,
}
use tuxwall.Posture.Ranking.{IsRanking}
use tuxwall.Posture.Bans.{IsCounted, IsSplit, run-IsSplit}

abbrev ban : Decision
ban = record { scenario = "ssh"; until = some 500 }

abbrev decisions : List Decision
decisions =
    ban
    ∷ record { scenario = "http"; until = some 300 }
    ∷ record { scenario = ""; until = none }
    ∷ record { scenario = "scan"; until = some 0 }
    ∷ ban
    ∷ []

abbrev rounds : List (ℕ × Round)
rounds =
    (
      1000000,
      record {
        updates =
            some (record { upgradable = some 40; running = true; percent = none; phase = "" });
        forwards = some (true ∷ false ∷ true ∷ []);
        dmz = some 1;
        crowdsec = some [];
        backups = some (740800 ∷ 100 ∷ []);
        services = none;
      },
    )
    ∷ (
      2000000,
      record {
        updates = none;
        forwards = none;
        dmz = none;
        crowdsec = some decisions;
        backups = none;
        services = some ("failed" ∷ "active" ∷ []);
      },
    )
    ∷ []

cards_test :
    (lift (λ c. c.total) (render_ov_posture (run rounds start)).exposed ≡ some 3)
    × (lift (λ c. c.bar) (render_ov_posture (run rounds start)).updates ≡ some (some 2))
    × (lift (λ c. c.fresh) (render_ov_posture (run rounds start)).backups ≡ some 90)
    × (lift
          (λ c. lift (λ b. map (λ t. t.n) b.top) c.bar)
          (render_ov_posture (run rounds start)).bans
        ≡ some (some (2 ∷ 1 ∷ 1 ∷ [])))
    × (lift (λ c. c.next_release) (render_ov_posture (run rounds start)).bans ≡ some (some 300))
unfolding run refresh_ov_posture newest_of render_ov_posture exposed_card updates_card backup_card
    bans_card ranked tally earliest sort insert
cards_test = (refl, refl, refl, refl, refl)

run-IsSplit_example :
    IsCounted (run rounds start)
    × IsRanking (run rounds start).decisions (ranked (run rounds start).decisions)
    × IsSplit
        (length (run rounds start).decisions)
        (ranked (run rounds start).decisions)
        (bans_card (or_zero (run rounds start).bans) (run rounds start).decisions).bar
run-IsSplit_example = run-IsSplit rounds
