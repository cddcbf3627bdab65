-- ===== src/Bolt.antt =====
-- The crate bolt: encoding and decoding of Lightning messages.
pub mod Types
pub mod ScidText
pub mod Wire
pub mod Tlv
pub mod Accepts
pub mod Error
pub mod Warning
pub mod Ping
pub mod Pong
pub mod FundingCreated
pub mod ChannelAnnouncement
pub mod NodeAnnouncement
pub mod ChannelUpdate
pub mod Init
pub mod OpenChannel
pub mod ReplyChannelRange
pub mod QueryChannelRange
pub mod MsgType
pub mod Message
