-- ===== src/AppState.antt =====
-- src/app/state.rs: the state of the application and its reducer, which changes the state and gives
-- the effects that the window then carries out. Arithmetic on `i32` wraps, as in a release build.
pub mod Model
pub mod Reducer
pub mod Preview
pub mod Valid
pub mod Effects
pub mod Actions
pub mod Pending
pub mod HookQueue
mod Tests
