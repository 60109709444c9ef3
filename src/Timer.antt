-- ===== src/Timer.antt =====
-- timerfd: timers in an ordered queue, behind a timerfd that an epoll loop watches.
pub mod Containers
pub mod Stamp
pub mod Queue
pub mod Manager
mod Examples
