-- ===== src/Triggers/Dispatch/Cases.antt =====
-- The three ways a dispatch ends.
use z_agent.Base.{
  ℕ, String, ◌≡◌, refl, ◌⊎◌, inl, inr, true, false, ◌||◌, Option, none, some, List, leb, Bool-cases,
  Option-cases, length, filter,
}
use z_agent.Triggers.{TriggerEvent, Verdict, Db, World, is_matched, set_log, persist_verdicts}
use z_agent.Triggers.Dispatch.{is_loop, judge_all, status_of, stamp, dispatch}

module _ (w : World) (uuid : String → String) (now : ℕ) (e : TriggerEvent) (id : ℕ) (db : Db) where
  abbrev pub judged : Db × Option (List Verdict)
  judged = judge_all w uuid now (filter (is_matched e) db.triggers) e db

  -- The event is ignored; or an exception ends the loop; or the verdicts are written.
  pub dispatch-cases :
      (((is_loop w uuid now e || leb (length (filter (is_matched e) db.triggers)) 0) ≡ true)
        × (dispatch w uuid now e id db ≡ (
          record db { logs = set_log id (λ l. record l { status = "ignored" }) db.logs },
          some "ignored",
        )))
      ⊎ (((is_loop w uuid now e || leb (length (filter (is_matched e) db.triggers)) 0) ≡ false)
          × (judged.1 ≡ none)
          × (dispatch w uuid now e id db ≡ (judged.0, none)))
      ⊎ (((is_loop w uuid now e || leb (length (filter (is_matched e) db.triggers)) 0) ≡ false)
          × (vs : List Verdict) × (judged.1 ≡ some vs)
          × (dispatch w uuid now e id db ≡ (
            record judged.0 {
              logs = set_log id (stamp vs) judged.0.logs;
              verdict_rows = persist_verdicts id vs judged.0.verdict_rows;
            },
            some (status_of vs),
          )))
  unfolding dispatch
  dispatch-cases =
      elim (Bool-cases
        (is_loop w uuid now e || leb (length (filter (is_matched e) db.triggers)) 0)) [
          | inl stop ↦ inl (stop, rw (stop, dispatch) refl)
          | inr go ↦ elim (Option-cases judged.1) [
            | inr raised ↦ inr (inl (go, raised, rw (go, dispatch) (rw (raised, dispatch) refl)))
            | inl (vs, done) ↦
                inr (inr (go, vs, done, rw (go, dispatch) (rw (done, dispatch) refl)))
          ]
        ]
