-- ===== src/Tests.antt =====
-- A platform whose numbers are the natural numbers, runs of the window on it, and the theorems at
-- concrete inputs.
mod Numbers
mod Payload
mod Answers
mod Views
mod Window
mod Page
mod Shown
