-- ===== src/Manager/Answers.antt =====
-- The `try` of a handler, with what its work leaves.
use versatile.Base.{String, ◌≡◌, refl, ◌∙◌, [], ◌∷◌, ◌++◌, arith}
use versatile.Py.Value.{Result, ok, err, Value}
use versatile.Py.Exec.{try_except, ◌>>=◌}
use versatile.Py.Exec.Frame.{Keeps}
use versatile.Py.Exec.Fails.{Fails}
use versatile.Manager.Quiet.{Quiet}
use versatile.World.{World}
use versatile.Manager.{Manager, Act, publish}
use versatile.Manager.Device.{answer}

abbrev pub outcome : Result Value → Value → Value
outcome (ok reply) error_reply = reply
outcome (err e) error_reply = error_reply

module _ (W : World) where
  -- What `answer` does, on both of its branches.
  pub answer_lem :
      (topic : String) (work : Act W Value) (error_reply : Value) (s : Manager W.State)
      → let (r, s') = work s in
        answer W topic work error_reply s
        ≡ (ok tt, record s' { published = s'.published ++ (topic, outcome r error_reply) ∷ [] })
  unfolding answer publish try_except ◌>>=◌
  answer_lem topic work error_reply s = ground arith

  -- After quiet work there is one more message, the outcome of the work.
  pub published-answer :
      (topic : String) (work : Act W Value) (error_reply : Value) (s : Manager W.State)
      → Keeps (Quiet W) work
      → let (r, s') = answer W topic work error_reply s in
        (r ≡ ok tt) × (s'.published ≡ s.published ++ (topic, outcome (work s).0 error_reply) ∷ [])
  published-answer topic work error_reply s quiet =
      rw (answer_lem topic work error_reply s) (refl, rw ((quiet.at s).same_published) refl)

  -- Work that fails is answered by the error reply.
  pub published-answer_failed :
      (topic : String) (work : Act W Value) (error_reply : Value) (s : Manager W.State)
      → Keeps (Quiet W) work
      → Fails work
      → let (r, s') = answer W topic work error_reply s in
        (r ≡ ok tt) × (s'.published ≡ s.published ++ (topic, error_reply) ∷ [])
  published-answer_failed topic work error_reply s quiet fails =
      let (e, h) = fails.at s in
      let (returned, one) = published-answer topic work error_reply s quiet in
      (returned, one ∙ rw h refl)
