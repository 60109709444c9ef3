-- ===== src/Channel/Examples.antt =====
-- Tests of ChannelTimer and EpollTimer (timerfd/timer_channel.cpp, timerfd/timer_epoll.cpp), and
-- their theorems at an interest list that is a function of the descriptor.
use algo.Prelude.{ℕ, ◌≡◌, refl, arith, true, none, some, List, [], ◌∷◌}
use algo.Channel.{
  Events, no_events, ChannelTimer, fresh_channel, on_error, on_read, on_write, update_channel,
  with_events, handle_event,
}
use algo.Channel.Loop.{Channels, put, loop_pass, each_alone, loop_pass_lem}
use algo.Channel.Tables.{put_at, tables, nothing_watched}
use algo.Channel.Laws.{Updates, update_channel_lem}

-- A new channel for descriptor 9, at address 400, starts to watch for input.
abbrev reader : ChannelTimer
reader =
    with_events tables (fresh_channel 9) (record no_events { readable = true; priority = true })

update_channel_lem_example :
    Updates tables nothing_watched 400 reader (update_channel tables nothing_watched 400 reader)
update_channel_lem_example =
    update_channel_lem tables nothing_watched 400 reader refl
      (λ e. (put_at nothing_watched 9 (some (400, reader.events)), refl))

-- A peer that has hung up with data left: the data is read, and the channel is not closed.
hup_with_input :
    handle_event (record reader {
      revents = record no_events { hup = true; readable = true };
      has_callback = λ c. true;
    })
    ≡ on_read ∷ []
unfolding handle_event
hup_with_input = refl

-- Two channels: a reader at address 400 and a writer at 500.
abbrev two_channels : Channels
two_channels =
    put (put (λ p. none) 400 (record reader { has_callback = λ c. true })) 500
      (record reader { fd = 10; has_callback = λ c. true })

abbrev two_reports : List (ℕ × Events)
two_reports =
    (500, record no_events { writable = true })
    ∷ (400, record no_events { readable = true; err = true })
    ∷ []

two_reports_pass :
    loop_pass two_channels two_reports ≡ some ((on_write ∷ []) ∷ (on_error ∷ on_read ∷ []) ∷ [])
unfolding loop_pass handle_event
two_reports_pass = refl

loop_pass_lem_example : loop_pass two_channels two_reports ≡ each_alone two_channels two_reports
loop_pass_lem_example = loop_pass_lem two_channels two_reports ((omega arith, tt), (tt, tt))
