-- ===== src/Prerender/Tables.antt =====
-- The tables of prerender/config.go, which stand in for lists that are not configured.
use swim.Prelude.{List, [], ◌∷◌, Text, text}

abbrev pub default_crawler_user_agents : List Text
default_crawler_user_agents =
    text "googlebot"
    ∷ text "adsbot-google"
    ∷ text "googleproducer"
    ∷ text "Yahoo! Slurp"
    ∷ text "yahoo"
    ∷ text "naver"
    ∷ text "seznambot"
    ∷ text "sznpholizec"
    ∷ text "bingbot"
    ∷ text "yandex"
    ∷ text "yabrowser"
    ∷ text "baiduspider"
    ∷ text "facebookcatalog"
    ∷ text "facebookbot"
    ∷ text "meta-externalagent"
    ∷ text "facebookexternalhit"
    ∷ text "twitterbot"
    ∷ text "rogerbot"
    ∷ text "linkedinbot"
    ∷ text "embedly"
    ∷ text "quora link preview"
    ∷ text "showyoubot"
    ∷ text "outbrain"
    ∷ text "pinterest/0."
    ∷ text "developers.google.com/+/web/snippet"
    ∷ text "slackbot"
    ∷ text "vkShare"
    ∷ text "W3C_Validator"
    ∷ text "redditbot"
    ∷ text "Applebot"
    ∷ text "WhatsApp"
    ∷ text "flipboard"
    ∷ text "tumblr"
    ∷ text "bitlybot"
    ∷ text "SkypeUriPreview"
    ∷ text "nuzzel"
    ∷ text "Discordbot"
    ∷ text "Google Page Speed"
    ∷ text "Qwantify"
    ∷ text "quantbot"
    ∷ text "ecosia"
    ∷ text "pinterestbot"
    ∷ text "duckduckbot"
    ∷ text "duckassistbot"
    ∷ text "Bitrix link preview"
    ∷ text "XING-contenttabreceiver"
    ∷ text "Chrome-Lighthouse"
    ∷ text "deepcrawl"
    ∷ text "lumar"
    ∷ text "tiktokspider"
    ∷ text "bytespider"
    ∷ text "KiwiNewsBot"
    ∷ text "gptbot"
    ∷ text "chatgpt "
    ∷ text "oai-searchbot "
    ∷ text "chatgpt-user"
    ∷ text "claudebot"
    ∷ text "google-extended"
    ∷ text "perplexitybot"
    ∷ text "perplexity-user"
    ∷ text "youbot"
    ∷ text "amazonbot"
    ∷ text "anthropic-ai"
    ∷ text "claudebot"
    ∷ text "claude-web"
    ∷ text "ccbot"
    ∷ text "mistralai-user"
    ∷ []

abbrev pub default_skipped_types : List Text
default_skipped_types =
    text ".js"
    ∷ text ".css"
    ∷ text ".xml"
    ∷ text ".less"
    ∷ text ".png"
    ∷ text ".jpg"
    ∷ text ".jpeg"
    ∷ text ".gif"
    ∷ text ".pdf"
    ∷ text ".doc"
    ∷ text ".txt"
    ∷ text ".ico"
    ∷ text ".rss"
    ∷ text ".zip"
    ∷ text ".mp3"
    ∷ text ".rar"
    ∷ text ".exe"
    ∷ text ".wmv"
    ∷ text ".doc"
    ∷ text ".avi"
    ∷ text ".ppt"
    ∷ text ".mpg"
    ∷ text ".mpeg"
    ∷ text ".tif"
    ∷ text ".wav"
    ∷ text ".mov"
    ∷ text ".psd"
    ∷ text ".ai"
    ∷ text ".xls"
    ∷ text ".mp4"
    ∷ text ".m4a"
    ∷ text ".swf"
    ∷ text ".dat"
    ∷ text ".dmg"
    ∷ text ".iso"
    ∷ text ".flv"
    ∷ text ".m4v"
    ∷ text ".torrent"
    ∷ text ".woff"
    ∷ text ".ttf"
    ∷ text ".svg"
    ∷ text ".webmanifest"
    ∷ []
