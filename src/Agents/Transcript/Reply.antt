-- ===== src/Agents/Transcript/Reply.antt =====
-- What a handler does when it goes on, in app/sidecar/acp/acp-session.ts: the `done` notification.
use capisco.Prelude.{◌≡◌, refl, true, false, some, List, [], ◌∷◌, ◌++◌, ◌∙◌, String, string_eq, ap}
use capisco.Prelude.Dict.{Dict, get}
use capisco.Prelude.Effect.{ok}
use capisco.Sessions.{TranscriptBlock, SessionStatus, SessionRecord, Store, apply_patch, update}
use capisco.Agents.Transcript.{
  SessionEvent, Live, is_done, status_patch, flush_each, flush_agent_message, finish,
  resume_notification,
}
use capisco.Agents.Transcript.Assembly.{flushed}
use capisco.Agents.Transcript.Durable.{Saw, flush_each-Stores, update-Stores}

-- The session at the end of a run.
pub record Finished (id : String) (bs : List TranscriptBlock) (v : Live) : Type 0 where
  pub session : SessionRecord
  pub found : get id v.store.sessions ≡ some session
  pub blocks : session.blocks ≡ bs
  pub status : session.session.status ≡ SessionStatus.done
  pub buffer : v.token_buf ≡ []
  pub finished : v.finished ≡ true

flush-runs :
    (id : String) (v : Live) (s : Store)
    → flush_each id v.store v.token_buf ≡ ok tt s
    → flush_agent_message id v ≡ ok tt (record v { store = s; token_buf = [] })
unfolding flush_agent_message
flush-runs id v s h = rw (h, flush_agent_message) refl

finish-runs :
    (id : String) (v u : Live) (s : Store)
    → flush_agent_message id v ≡ ok tt u
    → update u.store id (status_patch SessionStatus.done) ≡ ok tt s
    → finish id v ≡ ok tt (record u { store = s; finished = true })
unfolding finish
finish-runs id v u s h k = rw (h, finish) (rw (k, finish) refl)

done-runs :
    (id : String) (v : Live) (e : SessionEvent) (s1 s2 : Store)
    → is_done e ≡ true
    → flush_each id v.store v.token_buf ≡ ok tt s1
    → update s1 id (status_patch SessionStatus.done) ≡ ok tt s2
    → resume_notification id v e
      ≡ ok tt
          (record v { store = s2; token_buf = []; emitted = v.emitted ++ e ∷ []; finished = true })
unfolding resume_notification
done-runs id v e s1 s2 i h k =
    let u : Live = record v { emitted = v.emitted ++ e ∷ [] } in
    rw i (finish-runs id u (record u { store = s1; token_buf = [] }) s2 (flush-runs id u s1 h) k)

pub other-runs :
    (id : String) (v : Live) (e : SessionEvent)
    → is_done e ≡ false
    → resume_notification id v e ≡ ok tt (record v { emitted = v.emitted ++ e ∷ [] })
unfolding resume_notification
other-runs id v e i = rw i refl

-- The handler of `done` goes on.
pub done-Finished :
    (id : String) (bs : List TranscriptBlock) (buf : Dict String String) (v : Live)
    (e : SessionEvent)
    → is_done e ≡ true
    → Saw id bs buf v
    → (v' : Live) × (resume_notification id v e ≡ ok tt v')
      × Finished id (bs ++ flushed buf) v'
      × (v'.waiting ≡ v.waiting)
      × (v'.emitted ≡ v.emitted ++ e ∷ [])
unfolding apply_patch
done-Finished id bs buf v e i w =
    let (s1, h1, v1) = flush_each-Stores v.store id bs v.token_buf w.stores in
    let (s2, h2, (r, f, b, x, p)) = update-Stores s1 id _ (status_patch SessionStatus.done) v1 in
    (
      _,
      done-runs id v e s1 s2 i h1 h2,
      record {
        session = r;
        found = f;
        blocks = b ∙ ap (λ m. bs ++ flushed m) w.buffer;
        status = ap (λ x. x.status) p;
        buffer = refl;
        finished = refl;
      },
      refl,
      refl,
    )
