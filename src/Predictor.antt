-- ===== src/Predictor.antt =====
-- src/predictor.h and src/predictor.cpp: measured lengths of kernel bursts and of the windows between
-- them, and the predictions made from the lengths of the last three seconds.
pub mod RecordKeeper
pub mod Defs
pub mod Maxima
pub mod Clock
pub mod Window
pub mod Tracker
pub mod Simulation
pub mod Prediction
pub mod Comparison
