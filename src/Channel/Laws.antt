-- ===== src/Channel/Laws.antt =====
-- What UpdateChannel of EpollTimer (timerfd/timer_epoll.cpp) does to the interest list, and the
-- channel's own record of it.
use algo.Prelude.{ℕ, ◌≡◌, ◌≢◌, refl, ◌∙◌, Bool, true, false, none, some, ◌&&◌, if◌then◌else◌}
use algo.Channel.{
  Events, no_events, ChannelTimer, is_none_event, Epoll, del_channel, update_channel, with_events,
  close_channel,
}

module _ (E : Epoll) where
  abbrev pub IsKnownAs : Bool → E.Interest → ChannelTimer → Type 0
  IsKnownAs true s ch = (old : ℕ × Events) × (E.watched s ch.fd ≡ some old)
  IsKnownAs false s ch = E.watched s ch.fd ≡ none

  -- The channel takes itself for watched exactly if the list has its descriptor.
  abbrev pub IsKnown : E.Interest → ChannelTimer → Type 0
  IsKnown s ch = IsKnownAs ch.in_epoll s ch

  -- Nothing but the channel's descriptor is touched.
  abbrev pub OnlyAt : ℕ → E.Interest → E.Interest → Type 0
  OnlyAt fd s s' = (k : ℕ) → k ≢ fd → E.watched s' k ≡ E.watched s k

  abbrev pub Watching : E.Interest → ℕ → ChannelTimer → E.Interest × ChannelTimer → Type 0
  Watching s address ch r =
      (r.1 ≡ record ch { in_epoll = true })
      × (E.watched r.0 ch.fd ≡ some (address, ch.events))
      × OnlyAt ch.fd s r.0

  abbrev pub Gone : E.Interest → ChannelTimer → E.Interest × ChannelTimer → Type 0
  Gone s ch r =
      (r.1 ≡ record ch { in_epoll = false }) × (E.watched r.0 ch.fd ≡ none) × OnlyAt ch.fd s r.0

  -- What an update should do: a channel that is watched and has no events left is taken off the
  -- list, any other is on the list with its present events.
  abbrev pub Updates : E.Interest → ℕ → ChannelTimer → E.Interest × ChannelTimer → Type 0
  Updates s address ch r =
      if ch.in_epoll && is_none_event ch then Gone s ch r else Watching s address ch r

  abbrev pub CanAdd : E.Interest → ℕ → ChannelTimer → Type 0
  CanAdd s address ch =
      ch.in_epoll ≡ false → (s' : E.Interest) × (E.add s ch.fd address ch.events ≡ some s')

  abbrev at : ChannelTimer → Bool → ChannelTimer
  at ch b = record ch { in_epoll = b }

  del_channel-Gone :
      (s : E.Interest) (ch : ChannelTimer) (b : Bool)
      → IsKnown s (at ch b)
      → Gone s ch (del_channel E s (at ch b))
  unfolding del_channel
  del_channel-Gone s ch true (old, h) =
      let (s', run, off, else_same) = E.delete_ok s ch.fd old h in rw (run) (refl, off, else_same)
  del_channel-Gone s ch false h = (refl, h, λ k ne. refl)

  updated :
      (s : E.Interest) (address : ℕ) (ch : ChannelTimer) (b c : Bool)
      → is_none_event ch ≡ c
      → IsKnown s (at ch b)
      → CanAdd s address (at ch b)
      → Updates s address (at ch b) (update_channel E s address (at ch b))
  unfolding update_channel
  updated s address ch true true f h can = rw (f) (del_channel-Gone s ch true h)
  updated s address ch true false f (old, h) can =
      let (s', run, on, else_same) = E.modify_ok s ch.fd address ch.events old h in
      rw (f, run) (refl, on, else_same)
  updated s address ch false c f h can =
      let (s', run) = can refl in
      let (on, else_same) = E.add_ok s s' ch.fd address ch.events run in
      rw (run) (refl, on, else_same)

  -- UpdateChannel on a channel that knows whether it is watched, where a new descriptor is not
  -- refused: a watched channel without events is taken off the list, and any other channel, one
  -- without events included, is on it with its events; other descriptors are not touched.
  pub update_channel_lem :
      (s : E.Interest) (address : ℕ) (ch : ChannelTimer)
      → IsKnown s ch
      → CanAdd s address ch
      → Updates s address ch (update_channel E s address ch)
  update_channel_lem s address ch h can =
      updated s address ch ch.in_epoll (is_none_event ch) refl h can

  closed :
      (s : E.Interest) (address : ℕ) (ch : ChannelTimer) (b : Bool)
      → IsKnown s (at ch b)
      → CanAdd s address (with_events E (at ch b) no_events)
      → Gone s (with_events E ch no_events) (close_channel E s address (at ch b))
  unfolding close_channel update_channel del_channel
  closed s address ch true (old, h) can =
      let (s', run, off, else_same) = E.delete_ok s ch.fd old h in rw (run) (refl, off, else_same)
  closed s address ch false h can =
      let (s', run) = can refl in
      let (on, else_same) = E.add_ok s s' ch.fd address no_events run in
      let (s'', run', off, else_same') = E.delete_ok s' ch.fd (address, no_events) on in
      rw (run, run') (refl, off, λ k ne. else_same' k ne ∙ else_same k ne)

  -- The end of a channel takes its descriptor off the list, whether it was there or not, and
  -- touches no other.
  pub close_channel_lem :
      (s : E.Interest) (address : ℕ) (ch : ChannelTimer)
      → IsKnown s ch
      → CanAdd s address (with_events E ch no_events)
      → Gone s (with_events E ch no_events) (close_channel E s address ch)
  close_channel_lem s address ch h can = closed s address ch ch.in_epoll h can
