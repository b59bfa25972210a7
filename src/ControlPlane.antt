-- ===== src/ControlPlane.antt =====
-- pfpsim/core/cp: the commands of the control plane. Commands.h and Commands.cpp have the keys and actions in
-- them, the commands and their results; grammar.y says how a line is parsed.
pub mod Keys
pub mod Printed
pub mod Commands
pub mod Results
pub mod Flat
pub mod Literals
pub mod Scanner
pub mod Resized
pub mod Grammar
pub mod Written
pub mod ParsedBack
pub mod Ends
pub mod Texts
