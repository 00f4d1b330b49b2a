-- ===== src/HarRecorder.antt =====
-- extension/src/har-recorder.ts: the recorder of a tab's requests. The parts are the bodies of the
-- requests (Body) and of the responses (Stream), the pages (Pages), the hops (Hops) and the HARs kept
-- of stopped tabs (Kept).
pub mod Body
pub mod Stream
pub mod Pages
pub mod Hops
pub mod Kept
mod Tests
