-- ===== src/Dread.antt =====
-- ports/dreadthread: coroutine threads.
pub mod Chain
pub mod World
pub mod Switch
pub mod Semaphore
pub mod Event
pub mod Thread
pub mod Launch
pub mod Machine
pub mod Place
mod Tests
mod Examples
