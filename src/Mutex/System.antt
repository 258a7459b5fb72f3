-- ===== src/Mutex/System.antt =====
-- mutex.c: threads that lock and unlock one allocated mutex, in any order. One step is one section
-- under the mutex's spinlock, or the wakeup that follows an unlock; thread `i` has the tid `i + 1`.
-- Any thread that was the last to take the mutex may begin an unlock, whether it still holds it or not;
-- the runs in which it does hold it are `HeldReach`. Nobody deallocates the mutex.
mod Moves
mod Wakeups
mod Agreement
mod Sections
mod Invariant
unfoldable pub use Moves.*
pub use Wakeups.*
pub use Agreement.*
pub use Invariant.*
