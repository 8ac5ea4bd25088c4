-- ===== src/Server/Release.antt =====
-- A connection of src/server_threaded.c gives back all that `on_accept` acquired for it.
use jia_tuan_server.Common.{
  ℕ, ◌≡◌, refl, subst, ◌≢◌, inl, inr, Bool, true, false, Option, none, some, List, [], ◌∷◌, arith,
  ◌==◌, if◌then◌else◌, Bytes, Bool-cases,
}
use jia_tuan_server.Database.{Mysql}
use jia_tuan_server.WorkQueue.Links.{Ptr, null}
use jia_tuan_server.Server.World.{Resource, buffer, base, bufev, job, World, release, same}
use jia_tuan_server.Server.Client.{Client, close_client, close_and_free_client, release_member}
use jia_tuan_server.Server.Accept.{Queued, AcceptAnswers, on_accept}
use jia_tuan_server.Server.Balance.{
  owned, IsReady, on_accept-Balanced, member, same_refl, release_socket,
}
use jia_tuan_server.Server.Request.{
  double_release, done, ◌>>=◌, or_stop, Json, AfterRead, buffered_on_read,
}
use jia_tuan_server.Server.Clean.{Ends, returns, bind-Ends, received-IsClean, reply_to-IsClean}
use jia_tuan_server.Server.Connection.{
  Callback, on_read, on_write, on_error, callback, dispatch, server_job_function,
}

-- The queued job's node lies on top of what the client owns, and stays there.
release_member-under_job :
    (kind : Ptr → Resource) (p q : Ptr) (w : World)
    → same (kind p) (kind p) ≡ true
    → same (kind p) (job q) ≡ false
    → release_member kind p (job q ∷ member kind p w) ≡ some (job q ∷ w)
unfolding release
release_member-under_job kind p q w e ne = elim (Bool-cases (p == null)) [
  | inl n ↦ rw n
  | inr n ↦ rw n (rw (ne, e))
]

close_fd-under_job :
    (fd : Option ℕ) (self e b o q : Ptr) (w : World)
    → (self == null) ≡ false
    → let c : Client = record { self = self; fd = fd; evbase = e; buf_ev = b; output_buffer = o } in
      let c' : Client = record c { fd = none } in
      close_client c (job q ∷ owned c w) ≡ some (c', job q ∷ owned c' w)
unfolding close_client release
close_fd-under_job none self e b o q w nonnull = rw nonnull
close_fd-under_job (some n) self e b o q w nonnull = rw (nonnull, release_socket n self e b o w)

close_client-under_job :
    (c : Client) (q : Ptr) (w : World)
    → c.self ≢ null
    → close_client c (job q ∷ owned c w)
      ≡ some (record c { fd = none }, job q ∷ owned (record c { fd = none }) w)
close_client-under_job c q w nonnull =
    close_fd-under_job c.fd c.self c.evbase c.buf_ev c.output_buffer q w (ground arith)

close_and_free_client-under_job :
    (c : Client) (q : Ptr) (w : World)
    → c.self ≢ null
    → close_and_free_client c (job q ∷ owned c w) ≡ some (job q ∷ w)
unfolding close_and_free_client release
close_and_free_client-under_job c q w nonnull =
    let n : (c.self == null) ≡ false = ground arith in
    rw (n, close_client-under_job c q w nonnull)
      (rw (release_member-under_job bufev c.buf_ev q _ (same_refl c.buf_ev) refl) (
        rw (release_member-under_job base c.evbase q _ (same_refl c.evbase) refl) (
          rw (release_member-under_job buffer c.output_buffer q _ (same_refl c.output_buffer) refl)
            (rw (same_refl c.self)))))

-- Between two callbacks: what is live is `before`, what the client owns, and the node of the job.
abbrev Between : World → Ptr → {S : Type 0} → Client × World × S → Type 0
Between before q (c, w, s) = (c.self ≢ null) × (w ≡ job q ∷ owned c before)

abbrev AfterReadFine : (j : Json) (m : Mysql) → World → Ptr → AfterRead j m → Type 0
AfterReadFine j m before q r = (r.client.self ≢ null) × (r.world ≡ job q ∷ owned r.client before)

module _ (j : Json) (m : Mysql) (before : World) (q : Ptr) where
  open m use {State}

  close_if :
      (wf : Bool) (c : Client) (w : World)
      → c.self ≢ null
      → w ≡ job q ∷ owned c before
      → (c' : Client) × (w' : World) × ((if wf then close_client c w else some (c, w))
          ≡ some (c', w'))
        × (c'.self ≢ null)
        × (w' ≡ job q ∷ owned c' before)
  close_if true c w nonnull e =
      (record c { fd = none }, _, rw e (close_client-under_job c q before nonnull), nonnull, refl)
  close_if false c w nonnull e = (c, w, refl, nonnull, e)

  read-Ends :
      (wf : Bool) (input : Bytes) (c : Client) (w : World) (s : State)
      → c.self ≢ null
      → w ≡ job q ∷ owned c before
      → Ends (AfterReadFine j m before q) (buffered_on_read j m wf input c w s)
  unfolding buffered_on_read or_stop
  read-Ends wf input c w s nonnull e = bind-Ends (received-IsClean input) λ sdata _.
      bind-Ends (reply_to-IsClean j m sdata s) λ r _.
        let (c', w', closed, nonnull', e') = close_if wf c w nonnull e in
        rw closed (returns _ (nonnull', e'))

  callback-Ends :
      (event : Callback) (c : Client) (w : World) (s : State)
      → Between before q (c, w, s)
      → Ends (Between before q) (callback j m event c w s)
  unfolding callback or_stop
  callback-Ends (on_read wf input) c w s (nonnull, e) =
      bind-Ends (read-Ends wf input c w s nonnull e) λ r h. returns _ h
  callback-Ends on_write c w s h = returns _ h
  callback-Ends on_error c w s (nonnull, e) =
      rw (e, close_client-under_job c q before nonnull) (returns _ (nonnull, refl))

  dispatch-Ends :
      (events : List Callback) (c : Client) (w : World) (s : State)
      → Between before q (c, w, s)
      → Ends (Between before q) (dispatch j m events c w s)
  unfolding dispatch
  dispatch-Ends [] c w s h = returns _ h
  dispatch-Ends (event ∷ events) c w s h =
      bind-Ends (callback-Ends event c w s h) λ r k. dispatch-Ends events r.0 r.1 r.2 k

  finish-Ends :
      (c : Client) (s : State)
      → c.self ≢ null
      → Ends
          (λ (r : World × State). r.0 ≡ before)
          (or_stop double_release (close_and_free_client c (job q ∷ owned c before)) >>= λ w2.
            or_stop double_release (release (job q) w2) >>= λ w3. done (w3, s))
  unfolding or_stop release
  finish-Ends c s nonnull =
      rw (close_and_free_client-under_job c q before nonnull) (rw (same_refl q) (returns _ refl))

queued_world :
    (a : AcceptAnswers) (w w' : World) (q : Queued)
    → on_accept a w ≡ some (w', some q)
    → (w' ≡ job q.job_at ∷ owned q.user_data w) × IsReady a q
queued_world a w w' q accepted = elim (on_accept-Balanced a w) [
  | inl refused ↦ absurd (ground (arith, refused))
  | inr (p, made, ready) ↦
      let same_job : p ≡ q = cc in
      let same_world : w' ≡ job p.job_at ∷ owned p.user_data w = cc in
      subst (λ r. (w' ≡ job r.job_at ∷ owned r.user_data w) × IsReady a r) same_job
        (same_world, ready)
]

-- A connection that `on_accept` has queued gives back all that it took: for every sequence of
-- callbacks `server_job_function` either returns with exactly the resources live that were live
-- before `on_accept`, or a read stops the process for a reason in its request (an overflow of the
-- array, a text with no terminator, an assertion of jsoncpp, or a call of `exit`). It never
-- releases a resource twice.
pub connection_releases_all :
    (j : Json) (m : Mysql) (a : AcceptAnswers) (w w' : World) (q : Queued)
    → on_accept a w ≡ some (w', some q)
    → (events : List Callback) (s : m.State)
    → Ends (λ (r : World × m.State). r.0 ≡ w) (server_job_function j m events q w' s)
unfolding server_job_function
connection_releases_all j m a w w' q accepted events s =
    let (e, ready) = queued_world a w w' q accepted in
    bind-Ends (dispatch-Ends j m w q.job_at events q.user_data w' s (ready.client_nonnull, e))
      λ (c, w1, t) (nonnull, e1). rw e1 (finish-Ends j m w q.job_at c t nonnull)
