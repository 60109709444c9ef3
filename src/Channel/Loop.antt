-- ===== src/Channel/Loop.antt =====
-- One pass of TimerEventMgr::TimerLoop (timerfd/timer_loop_mgr.cpp) over the events that
-- epoll_wait reports (EpollWaitActive of timerfd/timer_epoll.cpp).
use algo.Prelude.{
  ℕ, ◌≡◌, ◌≢◌, refl, sym, ap, ◌∙◌, inl, inr, Option, none, some, List, [], ◌∷◌, ◌==◌, if◌then◌else◌,
  ==_refl, ==_ne, Option-cases,
}
use algo.Channel.{Events, ChannelTimer, Callback, handle_event}

abbrev pub Channels : Type 0
Channels = ℕ → Option ChannelTimer

abbrev pub put : Channels → ℕ → ChannelTimer → Channels
put h p ch = λ k. if p == k then some ch else h k

-- SetRevents.
abbrev pub set_revents : ChannelTimer → Events → ChannelTimer
set_revents ch e = record ch { revents = e }

-- The loop of EpollWaitActive over what epoll_wait has reported: pointers and events. The
-- channels are objects at addresses; none stands for a pointer to nothing.
unfoldable pub wait_active : Channels → List (ℕ × Events) → Option (Channels × List ℕ)
wait_active h [] = some (h, [])
wait_active h ((p, e) ∷ rest) = elim (h p) [
  | none ↦ none
  | some ch ↦ elim (wait_active (put h p (set_revents ch e)) rest) [
    | none ↦ none
    | some r ↦ some (r.0, p ∷ r.1)
  ]
]

-- The loop of TimerLoop: the callbacks that each active channel calls.
abbrev pub handle_next :
    Option ChannelTimer → Option (List (List Callback)) → Option (List (List Callback))
handle_next none rest = none
handle_next (some ch) none = none
handle_next (some ch) (some cs) = some (handle_event ch ∷ cs)

unfoldable pub handle_all : Channels → List ℕ → Option (List (List Callback))
handle_all h [] = some []
handle_all h (p ∷ ps) = handle_next (h p) (handle_all h ps)

unfoldable pub loop_pass : Channels → List (ℕ × Events) → Option (List (List Callback))
unfolding wait_active handle_all
loop_pass h reported = elim (wait_active h reported) [ none ↦ none | some r ↦ handle_all r.0 r.1 ]

abbrev pub reported_as : Events → Option ChannelTimer → Option ChannelTimer
reported_as e none = none
reported_as e (some ch) = some (set_revents ch e)

-- Each report on its own: the channel at the pointer handles the events reported for it.
abbrev pub each_alone : Channels → List (ℕ × Events) → Option (List (List Callback))
each_alone h [] = some []
each_alone h ((p, e) ∷ rest) = handle_next (reported_as e (h p)) (each_alone h rest)

abbrev pub NotReported : ℕ → List (ℕ × Events) → Type 0
NotReported p [] = Unit {0}
NotReported p (r ∷ rest) = (r.0 ≢ p) × NotReported p rest

abbrev pub AreDistinct : List (ℕ × Events) → Type 0
AreDistinct [] = Unit {0}
AreDistinct (r ∷ rest) = NotReported r.0 rest × AreDistinct rest

put-other : (h : Channels) (p k : ℕ) (ch : ChannelTimer) → k ≢ p → put h p ch k ≡ h k
put-other h p k ch ne = rw (==_ne p k (λ e. ne (sym e))) refl

each_alone-put :
    (h : Channels) (p : ℕ) (ch : ChannelTimer) (rest : List (ℕ × Events))
    → NotReported p rest
    → each_alone (put h p ch) rest ≡ each_alone h rest
each_alone-put h p ch [] n = refl
each_alone-put h p ch ((k, e) ∷ rest) n =
    ap (λ o. handle_next (reported_as e o) (each_alone (put h p ch) rest)) (put-other h p k ch n.0)
    ∙ ap (handle_next (reported_as e (h k))) (each_alone-put h p ch rest n.1)

-- What EpollWaitActive has done when the reports are of different channels: the others are as
-- they were, and what the active ones will handle is settled.
data Reads (h : Channels) (rest : List (ℕ × Events)) : Type 0 where
  fails : wait_active h rest ≡ none → each_alone h rest ≡ none → Reads h rest
  reads :
      (h' : Channels) (ps : List ℕ)
      → wait_active h rest ≡ some (h', ps)
      → ((p : ℕ) → NotReported p rest → h' p ≡ h p)
      → handle_all h' ps ≡ each_alone h rest
      → Reads h rest

handle_next-none : (o : Option ChannelTimer) → handle_next o none ≡ none
handle_next-none none = refl
handle_next-none (some ch) = refl

wait_active-Reads : (h : Channels) (rest : List (ℕ × Events)) → AreDistinct rest → Reads h rest
unfolding wait_active handle_all
wait_active-Reads h [] d = reads h [] refl (λ p n. refl) refl
wait_active-Reads h ((p, e) ∷ rest) d = elim (Option-cases (h p)) [
  | inl nothing ↦ fails (rw (nothing, wait_active) refl) (rw (nothing) refl)
  | inr (ch, found) ↦
      let ch' = set_revents ch e in
      let alone = each_alone-put h p ch' rest d.0 in
      elim (wait_active-Reads (put h p ch') rest d.1) [
        | fails run none_alone ↦ fails (rw (found, run, wait_active) refl) (
            ap (handle_next (reported_as e (h p))) (sym alone ∙ none_alone)
            ∙ handle_next-none (reported_as e (h p)))
        | reads h' ps run keep same ↦
            let here : h' p ≡ reported_as e (h p) = keep p d.0 ∙ rw (==_refl p, found) refl in
            reads h' (p ∷ ps) (rw (found, run, wait_active) refl)
              (λ k n. keep k n.1 ∙ put-other h p k ch' (λ q. n.0 (sym q)))
              (ap (λ o. handle_next o (handle_all h' ps)) here
                ∙ ap (handle_next (reported_as e (h p))) (same ∙ alone))
      ]
]

-- Where epoll_wait reports no channel twice, one pass of the loop makes each reported channel,
-- in order, handle the events reported for it; a pointer to no channel is undefined behaviour.
pub loop_pass_lem :
    (h : Channels) (reported : List (ℕ × Events))
    → AreDistinct reported
    → loop_pass h reported ≡ each_alone h reported
unfolding loop_pass
loop_pass_lem h reported d = elim (wait_active-Reads h reported d) [
  | fails run alone ↦ rw (run, loop_pass) (sym alone)
  | reads h' ps run keep same ↦ rw (run, loop_pass) same
]
