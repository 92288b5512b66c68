-- ===== src/Tests.antt =====
-- Concrete machines and tables, and the theorems at them.
mod Lamp
mod Engine
mod Failed
mod Replayed
mod Dropped
mod Polled
mod Built
mod Toy
mod Table
mod Meant
mod Door
mod Supervised
mod Accepted
mod AutoClosed
mod Reordered
mod Patterns
mod QuickStarted
mod LockDoored
mod Counted
mod Chained
mod Guided
